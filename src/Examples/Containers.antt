-- ===== src/Examples/Containers.antt =====
-- CUDA/Array.h and CUDA/Vector.h on small arrays.
use gpu_moses.Prelude.{◌≡◌, ltb}
use gpu_moses.Outcome.{done}
use gpu_moses.Cuda.Compare.{compare}
use gpu_moses.Cuda.Compare.Laws.{lists_sign, compare_lem}
use gpu_moses.Examples.Data.{
  numbers, number_buffer, number_buffer-Holds, full_buffer, full_buffer-Holds,
}

compare_lem_example : compare ltb number_buffer full_buffer ≡ done (lists_sign ltb numbers numbers)
compare_lem_example = compare_lem ltb numbers numbers number_buffer-Holds full_buffer-Holds
