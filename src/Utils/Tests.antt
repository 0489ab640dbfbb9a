-- ===== src/Utils/Tests.antt =====
-- The theorems on the string functions at short texts.
