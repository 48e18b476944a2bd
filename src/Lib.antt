-- ===== src/Lib.antt =====
-- Verification of the cross-chain part of the fuzzer, of its schedulers, and of the parts of the EVM fuzzer
-- that stand on their own: the bridge queue between two chains, the executor that drives deposits and
-- relays over it, the oracles that judge its state, the exploit paths that record and replay its steps,
-- the calldata mutator, the fuzzing loop on top of them, the corpus, and the two schedulers that choose
-- from it; the ABI values of transaction data, the taint and reentrancy analyses that watch every
-- instruction, the assertion cheatcodes, and the minimizer of bug traces.
--
-- The parts and their files:
--   Prelude            lists, hash maps, machine words and the `f64` interface, shared by all
--   CrossChain.Message, CrossChain.Queue, CrossChain.State
--                      evm/cross_chain/mod.rs: messages, the message queue, the dual-chain state
--   CrossChain.Interceptor
--                      evm/middlewares/cross_chain_interceptor.rs: `verify_message`
--   CrossChain.Oracle  evm/oracles/cross_chain.rs and evm/oracles/reentrancy_crosschain.rs
--   CrossChain.Rng, CrossChain.Executor, CrossChain.Deposit, CrossChain.Relay
--                      evm/cross_chain/executor.rs: the generator and the choice of a message, the
--                      executor's state, `execute_deposit` and `execute_relay`
--   CrossChain.ExploitStep, CrossChain.ExploitPath
--                      evm/cross_chain/exploit_path.rs: recording, and `ExploitPath::reproduce`
--   CrossChain.Runs    sequences of calls of the two executor operations; its children prove what every
--                      run keeps, each from an invariant and the rule of Runs.Rule
--   CrossChain.Mutator evm/mutator.rs: `CrossChainMutator`
--   CrossChain.Fuzzer  fuzzers/cross_chain_fuzzer.rs: `CrossChainFuzzer::run`
--   Oracles            evm/oracles/access_control.rs, evm/oracles/integer_overflow.rs and
--                      evm/oracles/price_oracle_manip.rs, and `run_gap_oracles` of
--                      fuzzers/cross_chain_fuzzer.rs
--   Corpus             indexed_corpus.rs: `IndexedInMemoryCorpus`
--   Scheduler          scheduler.rs: `DependencyTree`, `VoteData` and `SortedDroppingScheduler`
--   Rl                 rl_scheduler.rs: `RLMetadata`, `RLScheduler` and the reward signals
--   Abi                evm/abi.rs: the ABI values, `get_bytes`, `set_bytes` and
--                      `split_with_parenthesis`
--   Taint              evm/middlewares/sha3_bypass.rs: `Sha3TaintAnalysis` and `Sha3Bypass`; Taint.Arity is
--                      the table of the EVM's stack effects, which the match is compared with
--   Reentrancy         evm/middlewares/reentrancy.rs: `ReentrancyTracer`
--   Cheatcode          evm/middlewares/cheatcode/assert.rs and its part of the dispatch in
--                      evm/middlewares/cheatcode/mod.rs; evm/middlewares/mod.rs leaves this module out of
--                      the build at present
--   Minimizer          evm/minimizer.rs: the loops of `minimize`
--   Bytecode           evm/bytecode_iterator.rs: `all_bytecode`
--   Samples, and the modules named Tests
--                      sample data, and the theorems at concrete inputs
--
-- How they interact: the fuzzer draws mutations from the mutator, calls the executor's deposit and
-- relay, hands the state to the oracle, and replays the recorded path of every new bug. The executor
-- owns the state, verifies every message, moves it through the queue and records its steps. The
-- schedulers keep their data in the fuzzer's state (Scheduler.State) and see the corpus through the
-- interface `CorpusOps`, which the indexed corpus fills; a relay's reward is built from the counts of
-- the queue before and after it (Rl.RelaySignal).
--
-- The middlewares see each instruction before it runs: the taint analysis and the reentrancy tracer keep
-- their own state beside the interpreter's, of which the model has what they read. The minimizer runs
-- transactions on an executor that is a parameter, and the ABI values are what a transaction's data is
-- encoded from.
--
-- Correspondence: a method that takes `&mut self` is a function that returns the new value; `none` is a
-- panic (an `unwrap`, an index or a slice out of range). Words are native numbers with their
-- wrap-around or saturation written out; addresses are numbers and byte arrays are lists. A `HashMap`
-- is an association list in iteration order. What the standard library leaves open is a parameter: the
-- first element of a `HashSet` (`any_nonce`), the clock (`expired`, `elapsed`) and the arithmetic of
-- `f64` (`Floats`); the random numbers that the schedulers draw are arguments. The loops are
-- structural: over the captured messages, the recorded steps, the rounds left before the bound on
-- iterations, the entries of a table, and the elements of an array. The loop of the minimizer is on fuel,
-- of which one more than the number of transactions is enough (Minimizer.Minimal), and so is the walk over
-- a contract's code, of which one more than the number of bytes is enough (Bytecode.Starts). Elements of
-- ABI arrays are decoded at offsets read from the data; one that is out of range ends the loop, as in the
-- source. The walks up the dependency tree are on fuel, and tell fuel that runs out from a panic; fuel
-- above the parent's index is enough where parents come before
-- their children (Scheduler.Walks). The schedulers are modelled as built without the feature
-- `full_trace`.
--
-- Not modelled: logging, printing and files, `DualChainState::state_hash`, the virtual machines and
-- all that wraps them, the mutation and the default values of ABI types, the cheatcodes that are no
-- assertions, on-chain data, the concolic engine, the compiler artefacts and the datasets.
pub mod Prelude
pub mod Abi
pub mod Bytecode
pub mod Cheatcode
pub mod Corpus
pub mod CrossChain
pub mod Minimizer
pub mod Oracles
pub mod Reentrancy
pub mod Rl
pub mod Samples
pub mod Scheduler
pub mod Taint
pub mod Tests
