-- ===== src/Display.antt =====
-- vgdisplay: the displays, without their widgets.
pub mod Glob
pub mod ReadBack
pub mod Reports
pub mod DirLines
pub mod RoundTrip
pub mod WrapBox
pub mod Fits
pub mod Columns
pub mod Layout
pub mod Named
pub mod Lookups
pub mod FileBox
pub mod Items
pub mod Adding
pub mod Listing
pub mod Rereading
pub mod Mini
pub mod Process
pub mod Each
pub mod Active
pub mod Culling
pub mod Ranks
pub mod Taken
pub mod Showing
pub mod Events
pub mod Clicks
pub mod Searching
pub mod Steady
