-- ===== src/Cuda.antt =====
-- CUDA/Array.h, CUDA/Vector.h, CUDA/Set.h and CUDA/Map.h: growable arrays and the sorted sets on them.
pub mod Buffer
pub mod Order
pub mod Sign
pub mod Compare
pub mod Array
pub mod Vector
pub mod Holds
pub mod Shift
pub mod Insert
pub mod Search
pub mod Set
pub mod Map
