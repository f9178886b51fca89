-- ===== src/Streams.antt =====
-- The readers and writers that the program wraps around others: internal/tee, internal/ioutil,
-- internal/filebuf, rpc/sizereader.go and rpc/fault_injector.go.
pub mod Readers
pub mod Tee
pub mod FileBuf
