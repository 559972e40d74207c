-- ===== src/Profile.antt =====
-- The Profile service: Profile/.
pub mod Models
pub mod Whole
pub mod Subscriber
pub mod Manager
pub mod Coins
pub mod Users
pub mod Server
pub mod Middleware
pub mod Http
pub mod Sockets
pub mod App
