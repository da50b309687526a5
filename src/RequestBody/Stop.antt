-- ===== src/RequestBody/Stop.antt =====
-- handlers/request_body.rs: the stop words of the backend and of the request.
