-- ===== src/Tests.antt =====
-- Concrete instances of the parameters, and the theorems applied at concrete inputs.
pub mod Channels
pub mod World
pub mod Calls
pub mod Futures
pub mod Events
pub mod Delivery
pub mod Connections
pub mod Errors
pub mod OneRoute
pub mod Routes
pub mod ManyRoutes
pub mod Params
pub mod Routing
pub mod Building
pub mod Printing
pub mod Publishing
pub mod Session
pub mod Registering
pub mod Settings
