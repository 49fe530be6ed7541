-- ===== src/Curses.antt =====
-- The windows of the graph's statuses (curses/src): what is drawn, and where. ncurses draws it.
pub mod Lines
pub mod Cuts
pub mod Shorten
pub mod Render
pub mod Frames
pub mod Shown
pub mod Status
pub mod Grid
pub mod Placing
pub mod Columns
pub mod Tiles
pub mod Gui
pub mod Refresh
pub mod Spin
pub mod Returns
