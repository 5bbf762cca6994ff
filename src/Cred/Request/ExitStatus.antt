-- ===== src/Cred/Request/ExitStatus.antt =====
-- The exit status of a Grant Request.
