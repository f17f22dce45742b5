-- ===== src/Canvas.antt =====
-- app/canvas: requests to Canvas, and reading it page by page.
pub mod Client
pub mod Pagination
