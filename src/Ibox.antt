-- ===== src/Ibox.antt =====
-- iboxapi: what the driver reads of the appliance's objects, the calls of the interface `Client`,
-- and the appliance (with the Kubernetes API) as a parameter: its answer to a call is any function
-- of the calls before it.
mod Types
mod Calls
mod Surroundings
pub mod Client
pub mod Safety
pub mod Returned
pub mod Ending
pub use Types.*
pub use Calls.*
pub use Surroundings.*
