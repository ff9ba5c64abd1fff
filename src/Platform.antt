-- ===== src/Platform.antt =====
-- What the program uses and does not implement: Redis through go-redis, golang-jwt, SHA-256, and
-- the clock, the random sources and the answers of the PostgreSQL server. Each is a record of
-- operations with the laws that the proofs use.
pub mod Redis
pub mod Scripts
pub mod Jwt
pub mod Machine
use Redis.{RedisClient}
use Jwt.{JwtLibrary}
use Machine.{Host}

pub record Platform : Type 1 where
  pub redis : RedisClient
  pub jwt : JwtLibrary
  pub host : Host
