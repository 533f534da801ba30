-- ===== src/Lib.antt =====
-- phantom-fhe is a library for fully homomorphic encryption in Rust. Its lowest crates are modelled
-- here: the modular arithmetic and the ring of polynomials (crates/phantom-ring), the byte buffers
-- and headers (crates/phantom-utils), what the threshold protocols share and the verifiable secret
-- sharing (crates/phantom-multiparty/src/common and src/vss), sums, products and decryption of RLWE
-- ciphertexts (crates/phantom-lattice), and the parameters and byte forms of the schemes
-- (crates/phantom-schemes). The schemes' arithmetic, the circuits and the protocols above them
-- call these.
--
-- Parts and files. A file X.antt has its definitions, and the modules below X/ the proofs. A path that
-- does not begin with crates/ is under crates/phantom-ring/src.
-- - Base: names passed on, lists, `Result` with a third outcome for a panic, 64- and 128-bit words,
--   little-endian bytes, congruences.
-- - Ring.Types, Ring.Error: crates/phantom-ring/src/types.rs, modulus.rs, error.rs.
-- - Ring.Reduce: reduce/mod.rs and reduce/lazy.rs (`add_mod`, `sub_mod`, `neg_mod`, `mul_mod`,
--   `pow_mod`, `inv_mod`, `reduce_once`).
-- - Ring.Barrett: reduce/barrett.rs. `barrett_new` and `reduce` are `BarrettReducer::new` and
--   `reduce`; `mul_wide_128` runs on lists of limbs, and an index out of range is a panic.
-- - Ring.Montgomery: reduce/montgomery.rs. `montgomery_new` and `montgomery_mul` are
--   `MontgomeryReducer::new` and `mul`.
-- - Ring.BigUint: bignum.rs, little-endian limbs in base 2 ^ 64, with the long division by bits in
--   Ring.BigUint.Bits. Barrett's setup and the residue bases divide by it.
-- - Ring.Poly, Ring.Context: poly.rs and ring.rs. A polynomial is one list of coefficients for each
--   modulus; `Ring` is the context, and `ring_add`, `ring_mul` and so on are its methods.
-- - Ring.Ntt: ntt/table.rs, with ntt/cpu.rs and ntt/mod.rs in Ring.Ntt.Transform. The ring's product
--   takes this path where a modulus has a table.
-- - Ring.Rns: rns/basis.rs and rns/extension.rs, on big integers. `true_value` is one round of the loop
--   of `reconstruct_true_values`, and `extend_basis` takes its residues to another basis. Ring.Rns.Crt
--   is rns/crt.rs, Ring.Rns.Centered the signed values and the constants of rns/extension.rs, and
--   Ring.Rns.Rescale is rns/rescale.rs: a loop over coefficients and moduli is one over the moduli and
--   then the coefficients, since a cell does not read the result.
-- - Utils: crates/phantom-utils/src. The reader reads a byte slice and the writer writes to a vector.
-- - Multiparty: crates/phantom-multiparty/src/common. Participant, Session, ReplayGuard, Share,
--   Aggregator, Payload and Masking are the files of like name there (shares.rs is the three of
--   Share, Aggregator and Payload); Wire and Message are transcript.rs. A session has a participant
--   set; shares and messages are bound to a session, and the aggregator and the transcript check
--   that they are of theirs.
-- - Multiparty.Vss: crates/phantom-multiparty/src/vss. Polynomial, Embed and Reconstruct are
--   polynomial.rs, scalar_embed.rs and reconstruct.rs; share.rs is Commitments, Share, Accumulator and
--   Codec; the generators are in Multiparty.Vss itself. A dealer's polynomial gives commitments and
--   shares, a recipient's accumulator verifies and adds the shares, and the sum of the commitments
--   verifies the sum of the shares.
-- - Lattice: crates/phantom-lattice/src. Types is rlwe/plaintext.rs and rlwe/ciphertext.rs, Evaluator is
--   rlwe/evaluator.rs and rlwe/decryptor.rs, on the ring of their parameters. The schemes wrap these.
-- - Schemes: crates/phantom-schemes/src. Params and Builder are the params.rs of the schemes with
--   security.rs; `with_degree`, `with_moduli` and so on are the builder's methods. Types has the wrappers
--   of plaintexts and ciphertexts, Float the floats as their 64 bits. Serialization and Codec are
--   serialization.rs: a decoder checks the header, reads a ring, polynomials or slots, and the
--   constructors check what was read.
--
-- State and errors. A method on `&mut self` gives the new state; where it returns an error, the state
-- is the old one, as in the source. `add_verified_share` changes its state on an error too, and gives
-- its result with the state after it. `Result` values are `ok` and `err`, and a run that ends in a panic
-- is `panic`. Words are native numbers with the wrap-around of a build without overflow checks written
-- out. `usize` has 64 bits.
--
-- Loops and fuel. Loops over a list or a range are recursions on it. The exponent of `pow_mod` and the
-- operands of `gcd` decrease along the order of the numbers. The carry loop of the wide product has
-- fuel 5, one more than the limbs, after which its index is out of range. Binary search has the length
-- of the list, since each step leaves a smaller range. The search for a root has the number of
-- candidates of the source. The subtractions of `reconstruct_true_values` have one more than the
-- moduli, since each term is below the product. The long division runs over the bits of the dividend.
-- The decoders' loops run as often as the count that was read, and end at the end of the input.
--
-- Parameters. SHA-256 is an argument of `transcript_hash`, and the generator's words are an argument of
-- the sampler. The curve library, its hash and the source of random scalars are the record `Curve` and
-- an argument `random`; what the theorems rely on in them are the records `CurveLaws`, `ScalarBytes`
-- and `CanonicalBytes`, which Multiparty.Vss.Tests and CodecTests fill with concrete ones. Sorting, sets and maps of the standard library are lists: a set of identifiers its
-- elements, a map from participants to shares its values in their order.
--
-- Not modelled: Gaussian and ternary sampling, keys, encryption and key switching in the lattice crate, the
-- schemes' encoders and evaluators, the circuit and bootstrapping crates and the single protocols, which stand on these
-- parts; the builder's sum of logarithms, which is the parameter `within`; floating point, third-party generators, curves and
-- hashes, the clearing of memory on drop, and the texts of errors.
pub mod Base
pub mod Utils
pub mod Ring
pub mod Multiparty
pub mod Lattice
pub mod Schemes
