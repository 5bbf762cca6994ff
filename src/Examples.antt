-- ===== src/Examples.antt =====
-- Concrete inputs, and the theorems at them.
mod Data
mod Rules
mod Store
mod Service
mod Requests
mod Config
mod Cred
mod Push
mod Api
mod Life
