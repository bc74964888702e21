-- ===== src/Tests.antt =====
-- Runs of the models on concrete inputs, and each general statement at one of them.
mod Connections
mod Responses
mod Servers
mod Dummies
mod Programs
mod Messages
mod Deployments
mod Listings
mod Sharings
mod Dispatches
mod Starts
