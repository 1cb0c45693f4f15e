-- ===== src/Lib.antt =====
-- The PLONK prover on BLS12-381 of integration/prove.go, with its loop on the GPU and the buffers that
-- it keeps there (integration/prove_gpu.go).
--
-- The prover. `Prove` starts one goroutine per stage; the stages share an `instance` and wait for
-- each other on channels. The constraints are solved, the columns L, R and O are committed to with
-- blinding, the challenges are derived, the permutation polynomial Z is built and committed to, the
-- quotient is computed (numerator on rho cosets, on the GPU or on the CPU, division by Xⁿ - 1, three
-- shards), and at the challenge ζ the linearized polynomial is built and opened with the others.
--
-- The files, and the code of integration/prove.go that they model:
--   Prelude, Sum, Outcome, Slice: shared names, sums, what a Go call returns, Go slices.
--   Field, Curve, Poly: the interfaces of gnark-crypto that the code calls (fr.Element, G1Affine,
--     iop's Evaluate) with the laws of their documentation; Field/Seventeen is a small instance.
--   Bits: the bit-reversed indices of `divideByZH` and `computeNumerator`, with the functions
--     Reverse64 and TrailingZeros64 of Go's math/bits on 64 bits.
--   Stages: the goroutines of `Prove`, each as a list of waits, closes and calls, the channels of
--     `instance`, and a step relation with errors and the cancellation of the errgroup. The start of
--     the restoring goroutine by `computeNumerator` is the closing of one more channel. A call
--     returns or returns an error; a panic ends the process and is not a step.
--     Stages/Announced says which channels announce what a call reads.
--   BatchInvert: `batchInvert`. Vectors are functions of the index with a length beside them; the
--     goroutines of a round run in start order. The number of processors is an argument.
--   Blinding: `getRandomPolynomial`, `getBlindedCoefficients`, `evaluateBlinded`.
--   Quotient: `h1`, `h2`, `h3`, the domain sizes of `newInstance`; Quotient/Divide: `divideByZH` and
--     `evaluateXnMinusOneDomainBigCoset`.
--   Commit: `commitToLRO`, `commitBlindingFactor`, `commitToPolyAndBlinding`, `commitToQuotient`.
--   Linearized: `innerComputeLinearizedPoly`; Opened and Verified describe its value at the challenge.
--   Transform: ToCanonical, ToLagrange and ToRegular of an iop.Polynomial, by what they represent.
--   Numerator: the closures `gateConstraint`, `orderingConstraint`, `localConstraint` and
--     `allConstraints` of `computeNumerator`, what its loop over the cosets does to the blinding
--     polynomials, the restoring, and the scatter into the result; `scalePowers`.
--   Numerator/Loop: the loop as a whole, with its twiddles, its denominators, its scaling vectors, the
--     polynomials of `s.x` and the rows that `iop.Evaluate` computes, and their restoring. A state
--     (LoopState) goes through the iterations; the goroutine that scatters the buffer of an iteration
--     is done before the buffer is written again (`wgBuf.Wait`), so the scatter is part of its
--     iteration. ZS, a shallow clone of Z, reads the coefficients of Z.
--   Fallback: the loop of `gpuComputeNumeratorRhoLoop` on one blinding polynomial when an iteration
--     fails, and the CPU loop that `computeNumerator` runs then.
--   Bsb22: `bsb22Hint` and `completeQk`, without their index panics.
--   Opening: `batchOpening` and `coefficients`.
--   Powers: `buildPowerTable`, `scalePowersPrecomputed`, `calculateNbTasks`.
--   Gpu, Kernels: the package gpu as an interface: which buffers are allocated, what Malloc, Free and
--     MemcpyH2D do to them, and the calls that neither allocate nor free.
--   Device (prove_gpu.go): `proverGPUContext` and its functions. The pointer fields are cells, so a
--     `*unsafe.Pointer` is the index of a cell; negative indices of polynomials are left out.
--   GpuLoop (prove_gpu.go): `gpuComputeNumeratorRhoLoop` for an instance whose gpuCtx is nil, which is
--     every instance, since no code sets that field. Deferred calls are what follows the body.
--     `rho_loop_blinds` is what `computeNumerator` does around it with the blinding polynomials.
--   Examples: the interfaces at concrete values, and the theorems at concrete inputs.
--
-- Parameters: the scalar field, the group with MultiExp and kzg.Commit, Evaluate, fr.BatchInvert,
-- the changes of form of a polynomial, CosetTable, BuildExpTable, BitReverse and Twiddles of the fft
-- package, iop.Evaluate, the rounding of fft.NewDomain, utils.Parallelize, the hash to the field,
-- kzg.BatchOpenSinglePoint, the package gpu, and the random source. Field elements are elements of a
-- field, not limbs. Every domain is taken to have the FrMultiplicativeGen that `fft.NewDomain`
-- gives by default.
--
-- Bounds: loops are recursions on the number of rounds that are left, as the code counts them.
-- `trailing_zeros` recurses on 64, the width of its argument; vectors of 2 ^ w entries have w < 64.
--
-- Not modelled: what the kernels compute (the CUDA code under src/ and include/), the branches of the
-- GPU loop for a GPU context, prove_nogpu.go, which only returns an error, the solver, the building of
-- Z, the transcript, timings and tracing. Reuse of spare capacity by append, data races, and what a
-- failed copy leaves in its destination are outside the model.
pub mod Prelude
pub mod Field
pub mod Sum
pub mod Outcome
pub mod Slice
pub mod Poly
pub mod Curve
pub mod Bits
pub mod Stages
pub mod BatchInvert
pub mod Blinding
pub mod Quotient
pub mod Commit
pub mod Linearized
pub mod Transform
pub mod Numerator
pub mod Fallback
pub mod Bsb22
pub mod Opening
pub mod Powers
pub mod Gpu
pub mod Device
pub mod Kernels
pub mod GpuLoop
pub mod Examples
