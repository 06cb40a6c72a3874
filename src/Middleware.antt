-- ===== src/Middleware.antt =====
-- gateway/pkg/middleware: namespaces of function names (service_name.go), the URL resolvers and
-- path transformers (resolver.go) and the injector of credentials (basic_auth_injector.go).
pub mod ServiceName
pub mod Resolver
pub mod Injector
mod Tests
