-- ===== src/Tests.antt =====
-- Concrete inputs, and runs of the theorems on them.
mod Permissions
mod Credentials
mod Assignments
mod Controller
mod Fields
mod Secrets
mod Clients
mod Lookups
mod Queues
mod Assigned
mod Policies
mod Finalizers
