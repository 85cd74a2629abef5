-- ===== src/Lib.antt =====
-- Trinitite is an operating system for the Raspberry Pi whose programs are Nock formulas. Its nouns
-- are 64-bit words over an atom store and a cell heap (src/noun.c), its big numbers are limb arrays
-- (src/bignum.c), and its evaluator (src/nock.c) runs a formula on a subject under budgets of
-- operations and cells. This library models these parts.
--
-- Base passes the library's names on and has what the parts share: Base/Tests the comparisons of C,
-- Base/Lists arrays as lists, Base/Bits the bit operations as arithmetic, Base/Outcome the ways a
-- call ends, longjmp and undefined behaviour included.
--
-- Noun has the nouns as trees of direct atoms, limb arrays and cells: `noun` of src/noun.h with the
-- pointers followed. Noun/Word has the tag bits of the words themselves, Noun/Limbs the number of a
-- limb array, and Noun/Atom `make_atom` of src/noun.c. An indirect atom is its limbs in this
-- library, and two nouns are compared by `contents_eq`, where the code compares words, that is
-- hashes. Noun/Store has the reason: the atom store as a list of contents, `make_atom_checked` with
-- it, and `noun_eq` on words, with the hash (src/blake3.c) and the room in the store as arguments.
-- The open addressing of the index, the removal of entries by an aborted transaction and the cell
-- heap with its reference counts are not modelled, and outside Noun/Store the store has room.
--
-- Bignum follows src/bignum.c: Bignum/Scratch `atom_limbs` and `bn_normalize`, Bignum/Step `bn_inc`
-- and `bn_dec`, Bignum/Compare `bn_cmp`, Bignum/Add `bn_add`, Bignum/Sub `bn_sub`, Bignum/Mul
-- `bn_mul`, Bignum/Bitwise `bn_or`, `bn_and` and `bn_xor`, Bignum/Shift `bn_lsh`, Bignum/Decimal
-- `bn_from_decimal` and Bignum/Print `bn_to_decimal`, whose loop has fuel for 1280 digits, more
-- than 64 limbs have. Bignum/Met is `bn_met`. Loops over limbs are recursion on the arrays, with
-- the wrap at 2 ^ 64 written out. A write past a scratch array is the outcome `fault`. Division,
-- `bn_bex` and `bn_rsh` are not modelled.
--
-- Nock follows src/nock.c: Nock/Meter the static counters and `nock_budget_tick`, Nock/Slot `slot`,
-- Nock/Edit `hax`, Nock/Hint `parse_wilt` and `sock_match`, Nock/Eval `nock_eval`, `nock` and
-- `nock_ex`. A run takes the counters and returns them with its outcome. The evaluator recurses on
-- fuel, which bounds the nesting of calls and of rounds of `goto loop`; each round ticks, so a
-- limit of n operations makes n + 1 enough. The loops that find the depth of an axis have fuel 64,
-- as a word has 64 bits. Nock/HotState is `hot_lookup` over a table of jets. The table, the Forth
-- compiler behind `tame_compile` and the wall-clock check are the record `Host`, a parameter, since
-- six of the 22 jets of `hot_state` are not modelled. The compilation of a %tame clue is taken to
-- leave the counters alone. Printing hints have no effect in the model. Nock/Spec is Nock 4K on
-- plain trees, with a relation by which calls may be answered in place of their arms, and
-- Nock/Sound reads nouns as such trees. Nock/Hot is about `jet_dec` as an entry of the table.
-- Nock/Jets has the jets of one bignum call or a comparison of nouns and those on lists, not the
-- table `hot_state`, division, the right shift and the jets on axes. Nock/Ends and Nock/Budget are
-- about evaluation under a limit.
--
-- DigitalOut follows src/digital_out.c: DigitalOut/Log the audit ring, DigitalOut/Bank the static
-- variables and the operations, `digital_out_apply` among them, over the functions of
-- src/digital_out_backend.h as a record Backend, a parameter whose answers say which of them fail.
-- DigitalOut/Wires, DigitalOut/Latch and DigitalOut/Command are about sequences of calls, the latch
-- of a failure and the commands that succeed.
--
-- Jam follows src/jam.c. Jam/Writer is the bit buffer, Jam/Mat `do_mat` and `mat_len`, Jam/Probe
-- the probing that the two tables share, Jam/Encode `do_jam` and `jam`, Jam/Length `do_jam_len`,
-- `jam_size_checked` and `jam_encode_bytes_checked`, Jam/Rub `do_rub`, and Jam/Decode `do_cue` and
-- `cue`. A table is a function from its slots. The encoder works on words, so what it walks is a
-- noun with the word of each node, `Held`, and `g_jam_identity_keys` is an argument. Jam/Bits,
-- Jam/Count, Jam/Cache and Jam/Backrefs have the lemmas on bits and tables, Jam/Trace the runs of
-- the encoder as a relation, Jam/Known, Jam/Steps, Jam/Decoded and Jam/Replay the decoder along
-- such a run, Jam/RoundTrip, Jam/Room, Jam/Sized and Jam/Checked what both functions promise
-- together, and Jam/Ends how `cue` ends. The loop over the zeros of a code has fuel 66, as it
-- crashes at the 65th zero, and `do_cue` has one more than the bits of the limbs of its atom, as no
-- cell starts past them. The counters of src/i2_admission_metrics.c, the self-test and the room in
-- the cell heap are left out.
--
-- Ingress follows src/i2_ingress.c. Ingress/Bytes has the little-endian fields, Ingress/Receiver
-- the state `g_rx` with the receive buffer, the deadlines and `reject`, and Ingress/Feed
-- `i2_rx_feed_byte`, `i2_rx_poll` and `i2_rx_take`. `feed_scan`, `feed_header` and `feed_payload`
-- are the branches of `i2_rx_feed_byte`, one for each state, and the time is an argument, as is
-- what the serial line holds. The hash of src/blake3.c, the frequency of the counter and the
-- bounded decoder are parameters. Ingress/Digest, Ingress/Verified and Ingress/Memory have the
-- invariant, Ingress/Session sequences of calls, Ingress/History and Ingress/Taken the bytes that
-- they bring in, Ingress/Frame `i2_frame_encode`, and Ingress/Timing, Ingress/Scan,
-- Ingress/Payload, Ingress/RoundTrip and Ingress/Exchange a frame on its way. A rejection also
-- counts in the admission metrics, of which the ingress counters are modelled, and in RuntimeStats.
-- The self-tests and the texts are left out.
--
-- BoundedCue follows src/bounded_cue.c: BoundedCue/Reader the reader with its cache and `charge`,
-- `read_bit`, `cache_put` and `cache_get`, BoundedCue/Decode `decode_mat` and `decode_noun`,
-- BoundedCue/Whole `cue_bounded_bytes`. BoundedCue/Safe, BoundedCue/Atoms, BoundedCue/Bounds and
-- BoundedCue/Ended have the limits and how a call ends. The room in the atom store and the heap,
-- and the noun transaction of src/noun.c, are the record Store, a parameter. The loop over the
-- zeros has fuel 64, as the 64th zero ends it, and the recursion has one more than max_depth, where
-- the code refuses. The tests of null pointers and the status names are left out.
--
-- RuntimeStats follows src/runtime_stats.c: RuntimeStats/Histogram `histogram_add`,
-- RuntimeStats/Counters the block `g_stats` with its operations and the self-test,
-- RuntimeStats/Buckets, RuntimeStats/Tallies and RuntimeStats/Phases what the histograms hold. What
-- it reads from timers and heaps is an argument. The texts, the report to the serial line and the
-- characterization of novel atoms are left out.
--
-- Trace follows src/trace.c: Trace/Ring the ring and the watchdog, with what each call reads from
-- the counter as an argument, Trace/Window and Trace/History the ring against an unbounded log. The
-- canary reads two words of memory and is left out.
--
-- Not modelled: the kernel's event loop and storage, the admission policy and the operator's
-- records. The SKA compiler, the Forth system, the boot code and the device drivers are left out,
-- the last three as assembly or register access.
--
-- Tests has a concrete input for each theorem and runs of the code on small ones.
pub mod Base
pub mod Noun
pub mod Bignum
pub mod Nock
pub mod DigitalOut
pub mod Jam
pub mod BoundedCue
pub mod RuntimeStats
pub mod Ingress
pub mod Trace
pub mod Tests
