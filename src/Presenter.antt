-- ===== src/Presenter.antt =====
-- src/engine/quick/readback_presenter.h and .cpp, `ReadbackPresenter`: the ring of readback textures between
-- the shared bgfx device and the frame buffer of Qt. The platform data that the first `ensureSurface`
-- builds from the window system is a parameter; the content and OpenGL are the calls made of them.
mod State
pub mod Slots
pub mod Calls
pub mod Uploads
pub mod Bytes
pub mod Blits
mod Examples
pub mod Flip
mod Lifecycle
mod Ring
pub use State.*
pub use Lifecycle.*
pub use Ring.*
