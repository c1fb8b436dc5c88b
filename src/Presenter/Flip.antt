-- ===== src/Presenter/Flip.antt =====
-- readback_presenter.cpp, `flipImageVertical`: the rows of a picture are swapped in pairs.
pub mod Rows
use qml_and_bgfx_testbridge.Prelude.{
  ℕ, zero, suc, ◌+◌, ◌-◌, ◌*◌, ◌/◌, List, ◌++◌, take, drop, length, ltb, ◌||◌, if◌then◌else◌,
}
use qml_and_bgfx_testbridge.Prelude.Int.{ℤ, pos, pos_part, ltb_ℤ}

-- `memcpy` from and to a place in the image.
abbrev pub read_at : ℕ → ℕ → List ℕ → List ℕ
read_at offset n image = take n (drop offset image)

abbrev pub write_at : ℕ → List ℕ → List ℕ → List ℕ
write_at offset bytes image = take offset image ++ bytes ++ drop (offset + length bytes) image

-- The body of the loop: `rowBuf` holds the upper row.
unfoldable pub swap_rows : ℕ → ℕ → ℕ → List ℕ → List ℕ
swap_rows row_bytes y z image =
    let row_buf = read_at (y * row_bytes) row_bytes image in
    let upper = write_at (y * row_bytes) (read_at (z * row_bytes) row_bytes image) image in
    write_at (z * row_bytes) row_buf upper

-- The passes of the loop from y on, as many as are left.
unfoldable pub flip_loop : ℕ → ℕ → ℕ → ℕ → List ℕ → List ℕ
flip_loop zero y row_bytes height image = image
flip_loop (suc left) y row_bytes height image =
    flip_loop left (suc y) row_bytes height (swap_rows row_bytes y (height - 1 - y) image)

-- Width and height are those of a read, whose bytes an `int` can count.
unfoldable pub flip_image_vertical : List ℕ → ℤ → ℤ → List ℕ
flip_image_vertical image width height =
    let row_bytes = pos_part width * 4 in
    let rows = pos_part height in
    if ltb_ℤ width (pos 1) || ltb_ℤ height (pos 2)
    then image
    else if ltb (length image) (row_bytes * rows)
    then image
    else flip_loop (rows / 2) 0 row_bytes rows image
