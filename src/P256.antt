-- ===== src/P256.antt =====
-- drivers/p256.c: multi-limb arithmetic, the field modulo p, scalars modulo n, and curve points.
pub mod Limbs
pub mod Compare
pub mod Carry
pub mod Reduce
pub mod Product
pub mod Power
pub mod Field
pub mod Bytes
pub mod Scalar
pub mod Point
pub mod Jacobian
pub mod Numbers
mod Tests
