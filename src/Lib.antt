-- ===== src/Lib.antt =====
-- TestBridge Lab: a Qt application that draws terrain with bgfx into a QML item, and a test bridge by which a
-- JSON-RPC client on a WebSocket drives the application, reads its log and listens to its bus. This library
-- models the parts of the C++ code that hold state or decide, each translated from the source, and proves what
-- makes them correct. Paths are from the repository's root.
--
-- Rendering (src/engine):
-- - FrameGraph: src/engine/terrain/frame_graph.h, `FramePassList` with `add`, `validate`, `toJson`, `maskNames`
--   (`mask_names`) and `maskArray`, and `buildTerrainFramePasses` of terrain_renderer.cpp
--   (`terrain_frame_passes`). Masks are numbers below 2^32 under the bitwise operations.
-- - DeleteQueue: src/engine/common/resource_arena.h, `DeferredDeleteQueue`: `enqueue`, `collect`, `flushAll`,
--   `isRetired` with the 32-bit wrap written out.
-- - Device: src/engine/terrain/render_device.h and .cpp, `RenderDevice`. Device.Bgfx is bgfx as a parameter: each
--   of its answers may depend on the list of all calls before. Device.ViewIds has the allocation of view ids (its
--   search takes 256 candidates, so that it ends), Device.Surface the making and unmaking of a surface, Device
--   the public operations. The device holds the delete queue.
-- - Presenter: src/engine/quick/readback_presenter.h and .cpp, `ReadbackPresenter`, over the device. State has the
--   data and the waiting (16 frames at most, the bound of the source), Lifecycle `ensureSurface` and
--   `drainAndRelease`, Ring the operations of a frame, Flip `flipImageVertical`. OpenGL and the content are
--   lists of the calls made of them.
-- - AssetFetch: src/engine/quick/asset_fetch_service.cpp, `AssetFetchService`: the signatures, `cachedPath` and the end
--   of `request` over the files of the cache, whose answers are parameters.
-- - Heightfield: src/engine/terrain/heightfield_asset.h and .cpp, `loadRawR16` and `loadSrtmHgt` on the bytes of a
--   file, with the numbers of `float` a parameter.
--
-- - Compute: src/engine/terrain/terrain_cpu_compute.h and .cpp, on lists of numbers and of bytes. Compute.Decode is
--   `cpuDecodeAndNormalizeHeightfield`, Gaps `computeRobustHeightRange`, Slopes `cpuGenerateSmap`, Maxima
--   `cpuComputeRectMax`. The rounds and the bins are counted as in the source (4 and 256).
-- - Capabilities: src/engine/terrain/render_capabilities.h and .cpp, with `containsCi` and `probeRenderCaps` of
--   render_device.cpp. Texts are lists of codes; the environment, bgfx and OpenGL are arguments.
-- - Performance: src/engine/terrain/performance_monitor.h and .cpp, `RollingPerformanceMonitor`.
-- - Camera: src/engine/quick/render_scene.h and .cpp, `OrbitCamera`: Gestures has the operations of the mouse and the
--   wheel, Config `exportConfig` and `loadConfig`, where an exception leaves the camera as it is by then.
-- - RenderScene: the same files, `RenderScene` around the camera: its start with `resize`, `update` with the automatic
--   fit, and the loads, over the calls it makes of the terrain renderer. RenderScene.Paths is `normalizeLocalPath`,
--   RenderScene.Mouse the handling of the events that the viewport item hands over.
-- - Viewport: src/engine/quick/render_viewport_item.h and .cpp. Viewport has the setters and requests of
--   `RenderViewportItem`, Mouse its mouse handlers, Sync `synchronize` of the renderer, which tells the scene, and Frames
--   `render`, with the answers of the presenter and the scene within a frame as a record.
--
-- Test bridge (src/testbridge, src/quick):
-- - Rpc: rpc_dispatcher.h and .cpp, `RpcDispatcher`. The parser and the printer of nlohmann::json and the handlers
--   are parameters, and each can throw.
-- - WsServer: ws_server.h and .cpp, `WsServer`, one client over the sockets of Qt. WsServer.Reach has its steps as
--   an indexed type.
-- - Bridge: test_bridge.h and .cpp, `TestBridge`: start and stop, the way of a message from the server through the
--   dispatcher and back, and the registration of the methods.
-- - Bus: src/quick/guidatabus.h and .cpp, `GuiDataBus`, with the deaths of receivers.
-- - Endpoint: bus_endpoint.h and .cpp, `BusEndpoint`, which queues what it does to the bus for the GUI thread.
-- - Probe: qml_probe.h and .cpp, `QmlProbe`, registered with the dispatcher. Objects has the walk over the objects
--   (its depth is the bound of the source, 100) and the registry of handles, Items the tree of items with
--   `dumpItemTree`, `tree` and `hitTest`, Input the parsing of buttons, modifiers and keys, Values the conversions
--   and Qt as a parameter, Methods what clients call.
-- - LogSink: log_sink.h and .cpp, `LogSink`, the ring of 4096 lines. The formatting of spdlog, regular expressions
--   and the clock are parameters; the wakings of `wait` are a list of looks at the ring.
--
-- Prelude holds the shared names, tests and lemmas (lists on native numbers, signed and bounded integers, bits,
-- indices, texts), Json the values of JSON. In each part the child modules hold the theorems, and Examples
-- the tests and an instance of each theorem. Definitions go by structural recursion, over the list or the count
-- that the loop goes over, so that every function is total and no fuel stands in for a loop.
--
-- A function of the source is spelled here in snake_case, a loop or a part of a long function is a definition of
-- its own next to it. A mutex makes an operation one step. `int` and `qint64` are ℤ, unsigned integers are ℕ with
-- their wrap written out. A `std::function` that is kept is a value, and to run it is to list it.
--
-- Numbers of `float` and `double` are a type with operations, a parameter; where a theorem needs a law of their order it
-- is a named hypothesis.
--
-- Not modelled: the log lines, the platform data of `ensureSurface` and the callback of bgfx; the nested event loop of
-- `BusEndpoint::wait`; `meta` of the QML probe, and the screen grabber, which are calls of Qt; the terrain renderer but
-- for its pass lists, and the image files of heightfield assets, which are calls of bgfx and bimg; `focusOverlayRect`
-- of the scene; the parsing of overlay rectangles; the guesses of an ending and the keys of the asset service; the
-- application's start; and the copies of nanovg, fontstash and the helpers of the bgfx examples under
-- src/engine/common.
pub mod Prelude
pub mod Json
pub mod AssetFetch
pub mod Bridge
pub mod Bus
pub mod Camera
pub mod Capabilities
pub mod Compute
pub mod DeleteQueue
pub mod Device
pub mod Endpoint
pub mod FrameGraph
pub mod Heightfield
pub mod LogSink
pub mod Performance
pub mod Presenter
pub mod Probe
pub mod RenderScene
pub mod Rpc
pub mod Viewport
pub mod WsServer
