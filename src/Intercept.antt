-- ===== src/Intercept.antt =====
-- intercept.go: interceptors on channels (Client) and on service registries (Server). The package
-- grpchan only composes functions: the types of contexts, messages and results are parameters, and a
-- result type may be a monad or a function of a state.
pub mod Client
pub mod Server
