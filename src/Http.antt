-- ===== src/Http.antt =====
-- headers/http and sources/http: the parts of a request and of a response.
pub mod Version
pub mod Method
pub mod Status
pub mod Headers
pub mod Url
pub mod Request
pub mod Response
