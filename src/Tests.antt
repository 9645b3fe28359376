-- ===== src/Tests.antt =====
-- Concrete runs of the definitions, and the theorems at concrete inputs.
mod Names
mod Core
mod Mirror
mod Engine
mod Bridge
