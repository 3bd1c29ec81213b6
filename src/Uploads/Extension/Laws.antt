-- ===== src/Uploads/Extension/Laws.antt =====
-- What names `_extension_error` lets pass (paxalia/views/uploads.py).
