-- ===== src/Examples/GpuLoops.antt =====
-- The loop on the device of Examples/Devices.antt, with kernels that succeed.
use gnark_cuda.Prelude.{ℕ, ◌+◌, ◌≡◌, ◌≢◌, refl, arith, true, false, ◌==◌, if◌then◌else◌, none, some}
use gnark_cuda.Field.Seventeen.{F17, f17, reduce}
use gnark_cuda.Slice.{Slice}
use gnark_cuda.Quotient.Divide.{lagrange, regular}
use gnark_cuda.Numerator.{Blinds, rho_blinds}
use gnark_cuda.Numerator.Loop.{each_blind}
use gnark_cuda.Gpu.{Pointer, nil}
use gnark_cuda.Kernels.{Kernels}
use gnark_cuda.GpuLoop.{
  Inputs, Host, done, upload_failed, attempt, with_buffer, with_polys, with_buffers,
  gpu_compute_numerator, call_failed, cpu_loop_blinds, rho_loop_blinds,
}
use gnark_cuda.GpuLoop.Whole.{gpu_compute_numerator-live, gpu_compute_numerator-leak}
use gnark_cuda.GpuLoop.Matches.{gpu_compute_numerator-rho_blinds, rho_loop_blinds-cpu}
use gnark_cuda.Examples.Polynomials.{small_domain, big_domain}
use gnark_cuda.Examples.Devices.{Memory, gpu}

abbrev kernels : Kernels {World = Memory F17} {F = F17} gpu
kernels = record {
  ntt_init = λ n w. (true, w);
  stream_acquire = λ w. (true, w);
  stream_release = λ w. w;
  stream_sync = λ w. w;
  copy_pointers = λ q ptrs size w. (true, w);
  vec_denominators = λ dst twiddles coset n w. (true, w);
  plonk_rho_iteration = λ b n npolys nb ifft fft w. (true, w);
  plonk_scatter_result = λ result cres n rho i w. (true, w);
  memcpy_d2h = λ q size w. (true, w);
  read = λ w. w.contents;
  ntt_init_live = λ n w p. refl;
  stream_acquire_live = λ w p. refl;
  stream_release_live = λ w p. refl;
  stream_sync_live = λ w p. refl;
  copy_pointers_live = λ q ptrs size w p. refl;
  vec_denominators_live = λ dst twiddles coset n w p. refl;
  plonk_rho_iteration_live = λ b n npolys nb ifft fft w p. refl;
  plonk_scatter_result_live = λ result cres n rho i w p. refl;
  memcpy_d2h_live = λ q size w p. refl;
}

abbrev values : ℕ → Slice F17
values n = record { len = n; at = λ i. reduce (i + 1) }

abbrev inputs : (n : ℕ) → Inputs F17
inputs n = record {
  rho = 4;
  n = n;
  npolys = 6;
  nb_bsb_gates = 0;
  scaling_vector_rev = values n;
  scaling_vector_domain1_rev = values n;
  twiddles0 = values n;
  shifters = λ i. if i == 0 then reduce 3 else reduce 2;
  alpha = reduce 2;
  beta = reduce 4;
  gamma = reduce 5;
  domain0 = small_domain;
  domain1 = big_domain;
}

abbrev blinding : Blinds F17
blinding = record { bl = values 2; br = values 2; bo = values 2; bz = values 3 }

-- Six polynomials of n values, without the third.
abbrev host : (n : ℕ) → Host F17
host n = record {
  coset = reduce 1;
  bp = blinding;
  cres = λ _. reduce 0;
  x = λ i.
      if i == 2
      then none
      else some (record { coefficients = values n; basis = lagrange; layout = regular });
}

abbrev start : Memory F17
start = record { next = 1; live = λ _. false; capacity = λ _. 0; contents = λ _ _. reduce 0 }

returns : (gpu_compute_numerator kernels (inputs 2) (host 2) start).0 ≡ done
unfolding gpu_compute_numerator attempt with_buffer with_polys with_buffers
returns = refl

done-ne-upload : done ≢ upload_failed
done-ne-upload e = absurd (cc e)

not_upload : (gpu_compute_numerator kernels (inputs 2) (host 2) start).0 ≢ upload_failed
not_upload = rw returns done-ne-upload

gpu_compute_numerator-live_example :
    (gpu_compute_numerator kernels (inputs 2) (host 2) start).2.live 3 ≡ false
gpu_compute_numerator-live_example =
    gpu_compute_numerator-live kernels (inputs 2) (host 2) start 3 not_upload (omega arith)

-- Ten values are too many for a copy.
too_large : (gpu_compute_numerator kernels (inputs 10) (host 10) start).0 ≡ upload_failed
unfolding gpu_compute_numerator attempt
too_large = refl

gpu_compute_numerator-leak_example :
    (p : Pointer) × (p ≢ nil)
    × (start.live p ≡ false)
    × ((gpu_compute_numerator kernels (inputs 10) (host 10) start).2.live p ≡ true)
gpu_compute_numerator-leak_example =
    gpu_compute_numerator-leak kernels (inputs 10) (host 10) start too_large

gpu_compute_numerator-rho_blinds_example :
    (gpu_compute_numerator kernels (inputs 2) (host 2) start).1.bp
    ≡ each_blind (rho_blinds 2 4 0 (inputs 2).shifters (reduce 1)) blinding
gpu_compute_numerator-rho_blinds_example =
    gpu_compute_numerator-rho_blinds kernels (inputs 2) (host 2) start returns

upload-ne-call : upload_failed ≢ call_failed
upload-ne-call e = absurd (cc e)

not_call : (gpu_compute_numerator kernels (inputs 10) (host 10) start).0 ≢ call_failed
not_call = rw too_large upload-ne-call

rho_loop_blinds-cpu_example :
    rho_loop_blinds kernels (inputs 10) false (host 10) start
    ≡ cpu_loop_blinds kernels (inputs 10) (host 10)
rho_loop_blinds-cpu_example = rho_loop_blinds-cpu kernels (inputs 10) false (host 10) start not_call
