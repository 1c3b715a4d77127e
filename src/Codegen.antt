-- ===== src/Codegen.antt =====
-- cmd/protoc-gen-grpchan/protoc-gen-grpchan.go: the plugin's arguments (Args) and the stubs that it
-- generates (Stubs).
pub mod Args
pub mod Stubs
