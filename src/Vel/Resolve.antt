-- ===== src/Vel/Resolve.antt =====
-- `src/vel.rs`: what `resolve_vars` replaces.
