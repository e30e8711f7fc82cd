-- ===== src/Http.antt =====
-- The HTTP service of src/httprequest.cpp, src/httpresponse.cpp and src/httpconn.cpp.
pub mod Request
pub mod Response
pub mod Conn
