-- ===== src/Client.antt =====
-- app/infrastructure/external_api/catalog_client.py with the limiter of app/utils/rate_limiter.py:
-- the client of the external API. Its HTTP library is an argument, as are the floats of the delays.
pub mod Limiter
pub mod Requests
pub mod Handling
pub mod Outcomes
pub mod Stream
pub mod Temporary
pub mod Clean
pub mod Examples
pub mod Downloads
