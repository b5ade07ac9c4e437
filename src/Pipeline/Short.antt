-- ===== src/Pipeline/Short.antt =====
-- A short read is taken for the end of the file.
use advcpp.Memory.{Memory}
