-- ===== src/Lib.antt =====
-- SecLMS: hash-based signatures (LMS and LM-OTS of RFC 8554) with a security state domain that
-- releases a signature only after the counter behind its one-time index is durable.
--
-- The security state domain, fw/lms_sec_state.c and fw/lms_sec_state.h, is SecState: its static
-- variables are the record Sec (sec_slots, sec_slot_valid, sec_boot_valid and sec_rec_diag at one
-- index are a Slot), and the hardware behind the MMIO client is a parameter, the record Device, whose
-- calls return the next hardware state. A function that changes variables takes and returns Sec.
--   SecState/Record   encode_body, compute_tag, rec_valid, rec_valid_check, slots_all_zero
--   SecState/Keys     sim_puf_read, fe_gen, fe_rep, sec_kdf, sec_load_hw_keys_i, sec_keygen_key,
--                     sec_keygen_new, sec_factory_init
--   SecState/Commit   commit_finish, state_commit (fused, and in two steps)
--   SecState/Sign     sec_sign
--   SecState/Boot     sec_boot
--   SecState/Uart     sec_uart_commit_allowed, sec_handle_uart_cmd
--   SecState/Safety   the invariant, and that boot, commit and signing keep it
--   SecState/Trace    histories of the device as an indexed data type, and what they release
--   SecState/Progress what sec_sign gives on hardware that works (SecState/Commit/Reliable)
--   SecState/Limits   what the code does at the greatest index, and after a boot that
--                     accepts no record
-- A record has 64 bytes and a tag 16. Counters are numbers of 32 bits, with the wrap-around of C
-- written out where the code adds one.
--
-- The signature scheme, include/lms.h and src/, is Lms. Results with an error are the type Result.
--   Lms/Params        lms_get_lms_param, lms_get_lmots_param, their caches, lms_get_private_hash_alg,
--                     lms_get_public_hash_alg, lms_signature_len (src/lms_params.c)
--   Lms/Coef          lms_lmots_coef, lms_lmots_checksum (src/lms_params.c); Coef/Bounds is about the
--                     checksum, Coef/Digits about the digits
--   Lms/Hash          lms_hash (src/hash_api.c), lms_hash_parts (src/lms_params.c)
--   Lms/Codec         lms_private_key_init and the serialization of keys (src/lms.c)
--   Lms/Ots           src/lm_ots.c; its backends are Ots/Registered, and Ots/Spec is what it
--                     computes without them
--   Lms/Tree          src/lms_tree.c, and lms_public_key_generate of src/lms.c
--   Lms/Sign          lms_do_sign (src/lms_sign.c)
--   Lms/Coprocess     lms_coprocess_tree_init and the other functions of src/lms_coprocess.c;
--                     Coprocess/Filled and Coprocess/Correct are about the tree that is built
--   Lms/Subtree       src/lms_subtree.c: Config is the configurator, Context the context, Cache the
--                     building and the look-ups between signatures, Keygen the whole tree and its
--                     root; Stream, Fill, Geometry, Held, Rebuild, Cached, Paths and Refine are the
--                     way from one merged leaf to the authentication paths; Scanned and Optimal are about
--                     Config; Layers, Sized and Start about a new context and its first path
--   Lms/Verify        lms_root_from_signature (src/lms_verify.c), lms_verify (src/lms.c);
--                     Verify/Correct and Verify/Path are about what lms_do_sign signs,
--                     Verify/Accepts about what is accepted, Verify/Pair about both for
--                     the clients
--   Lms/Results       what is known of a call that succeeds
-- Backends that may be registered are optional functions of what they are called with. The caches
-- are modelled by themselves, in Lms/Params/Cache; the other modules look up the tables.
-- The recursion of lms_tree_node has the height of the tree as fuel, which is enough for every node
-- of the tree; of node 0, for which the C function does not end, the model says nothing.
--
-- The hierarchy of src/hss.c and include/hss.h is Hss. It calls the functions of Lms.
--   Hss/Counter       increment_generation
--   Hss/Levels        lms_capacity, derive_level_material, build_level, sign_child_certificate,
--                     refresh_level_if_exhausted
--   Hss/Sign          hss_private_key_init, the functions on public keys, hss_signature_len, hss_sign
--   Hss/Verify        hss_verify
--   Hss/Ready         the invariants of a key, and what it means that its state goes on
--   Hss/Build, Hss/Certify, Hss/Renew, Hss/Refresh, Hss/Init
--                     what the steps do to the invariants
--   Hss/Chain, Hss/Accepts
--                     what is signed, and that it is accepted
--   Hss/Trust         what an accepted signature holds
-- The arrays of hss_private_key_t are functions of the level; hss_sign works on a copy, so that a
-- failure leaves the key as it was.
--
-- The hash functions of hashs/ are the parameter HashLib; the laws of IsHashLib say that each gives
-- as many bytes as it promises. Not modelled: the client src/lms_mmio.c,
-- lms_tree_ctx_free of src/lms_subtree.c, the main programs and random numbers of fw/, the hardware of rtl/, null pointers, and the counters for profiles. A
-- history in SecState/Trace is that of one key: sec_keygen_new, which starts the counter anew under
-- a new key, is modelled but is not one of its steps.
--
-- Prelude holds numbers as tests, lists, and bytes.

pub mod Hss
pub mod Lms
pub mod Prelude
pub mod SecState
