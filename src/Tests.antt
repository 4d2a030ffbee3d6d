-- ===== src/Tests.antt =====
-- Concrete inputs on which the theorems are tried.
mod Websocket
mod Http
mod Session
mod Database
mod Queue
mod Container
mod Repository
mod Gate
mod Config
mod Events
mod Pbkdf2
mod View
mod Migration
mod Unary
mod Cache
mod Csrf
mod Token
mod Server
mod Strokes
mod Static
mod Scheduler
mod Validation
mod Personal
mod Opening
mod Mount
