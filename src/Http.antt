-- ===== src/Http.antt =====
-- include/http.hpp, include/pipeline.hpp, src/pipeline.cpp, src/router.cpp and src/kernel.cpp: a
-- request's way through the kernel.
pub mod Messages
pub mod Pipeline
pub mod Router
pub mod Kernel
pub mod Url
