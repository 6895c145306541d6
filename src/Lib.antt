-- ===== src/Lib.antt =====
-- Reef chain: proof of commitment; the storage meters, deposits, accounts and contracts of the EVM;
-- the fees of transactions; currencies, native and of contracts; and the estimates of a node.
--
-- The chain is a Substrate runtime. Its pallets keep their state in storage maps, change it by signed
-- calls and block hooks, and move money through the currency pallets. A call that fails leaves the
-- storage as it was: this is why an error of the model carries no state. A model of a pallet is a
-- record of its storage with one function to a call, which returns the new storage or the error.
--
-- Base: what the modules share. Results and errors, lists and maps with native numbers, unsigned and
-- signed machine words with saturation, checks and wrap-around written out. A storage map is an
-- association list in the order of its iteration (Base.Map), a double map one with two keys
-- (Base.DoubleMap).
--
-- Substrate: the currency of the runtime, which stands in other repositories, as an interface of
-- operations (`Currency`) with the laws that are documented of them (`CurrencyLaws`). Theorems take
-- any currency, or any currency with these laws; Substrate.Ledger has a concrete one with a proof of
-- the laws, and the examples run on it.
--
-- Poc: modules/poc/src/lib.rs, where accounts lock funds behind candidates of a technical council.
--   Poc.Types: the storage, the configuration, the errors and events; `Config` and the constants.
--   Poc.Power: `voting_weight` with its multiplier by lock duration, and the rewards of an era.
--   Poc.Calls: the calls `start_candidacy`, `stop_candidacy`, `commit`, `add_funds`, `unbond`, `withdraw`
--     and `vote_candidate`.
--   Poc.Election: `on_initialize` and `change_era` with the count of votes, the election of members,
--   the payment of the council and the end of the era.
--   The other modules are proofs: Locked, Seats and Runs the invariant over histories; Tally, Search,
--   Ranking, Winners, Order and Weights the election; Supply, Unbonding, VoterReward, Eras and
--   Council the money, the life of a commitment, the rewards, the change of eras and who then sits.
-- The number of the block is an argument; the technical committee is the list of
-- members that the collective was last told. The votes of an election are counted in a map ordered by
-- account, as the source does with a BTreeMap.
--
-- Evm.Meter: modules/evm/src/runner/storage_meter.rs and `run_transaction`, `run_sub_transaction` of
-- modules/evm/src/runner/handler.rs. The meters of nested calls are a stack of records over a root
-- handler; a program is a tree of storage uses, refunds and calls (Evm.Meter.Runs), and a run of it
-- goes up and down the stack as the calls do. A program is finite, so a run needs no fuel.
-- Evm.Deposits: the root handler of handler.rs, which reserves, charges and releases the deposit for
-- storage in the currency.
--
-- Evm.Accounts: modules/evm-accounts/src/lib.rs, the two maps between accounts and EVM addresses, the
-- calls that claim an address, the lookup of addresses and the text that a claim signs. Bytes are
-- numbers below 256. The hash functions and the recovery of a key from a signature stand outside the
-- repository and are parameters, as is the transfer of all funds of another account.
--
-- Evm.Contracts: modules/evm/src/lib.rs, the accounts of the EVM with their contracts, the code that
-- contracts share with its counts of references (Evm.Contracts.Code), and the calls on maintainers,
-- deployment, developer deposits, `set_code` and `selfdestruct` (Evm.Contracts.Calls). The transfer of a
-- removed contract's funds names the accounts that it kills, and their hook runs on the storage as it
-- then is. Evm.Contracts.History runs sequences of these calls and hooks; Counts, Counted, Keeping,
-- CallsKeep, StepsKeep, Alone and Removal are the proofs that each keeps the counts. The calls of the pallet that run
-- a contract are not modelled.
--
-- Evm.Execute: `EVM::execute` of modules/evm/src/lib.rs, by which other modules run a contract. The runner
-- is a parameter; what it returns is kept or rolled back as the mode says.
-- Evm.Bridge: modules/evm-bridge/src/lib.rs, which calls ERC20 contracts through Evm.Execute. The inputs are
-- lists of bytes; an index out of range, which stops the program, is the fault `panic`. The largest
-- index of the machine and the conversion of bytes to a big number are parameters.
--
-- Payment: modules/transaction_payment/src/lib.rs. Weights, fixed-point numbers, the currency with its
-- imbalances, and the receiver of the fees are parameters, with records of what is documented for them
-- (`Documented`, `Saturates`, `FeeCurrencyLaws`); Payment.Samples has concrete ones.
--   Payment.Fees: `compute_fee` and the like, and `get_priority`; Payment.FeeLaws has its theorems.
--   Payment.Adjustment: `TargetedFeeAdjustment`, the multiplier of the fees at the end of a block.
--   Payment.Charging: `ChargeTransactionPayment`, with `pre_dispatch`, `post_dispatch` and the operations that
--   other modules use; Settlement, ChargingLaws and Reserved have its theorems.
--
-- Currencies: modules/currencies/src/lib.rs and the currency ids of primitives/src/lib.rs.
--   Currencies.Ids: the ids and their 32 bytes.
--   Currencies.Interfaces: a basic currency as a record of operations, which is what the pallet calls and
--   what it offers; the bridge, the address mapping and the hash stand in the record `Host`.
--   Currencies.Dispatch, Reserves: the operations of the pallet, and `currency`, which makes a basic currency
--   of each id. What an account has reserved of an ERC20 currency is the balance of its reserve address.
--   Currencies.Adapter: `BasicCurrencyAdapter`; Moves and Repatriation have theorems on the reserves.
-- The records of the bridge in Evm.Bridge and in Currencies.Interfaces differ in that the queries of the
-- latter return no storage, as a query rolls its storage back. A transfer returns a storage in both, also
-- when it fails: the contract may have run to its end and answered another word than `true`.
--
-- Rpc: modules/evm/rpc/src/lib.rs. The API of the runtime is a parameter, a function of the request.
--   Rpc.Requests: one run of a request, with the errors that are answered and the reason of a revert.
--   Rpc.Search: the searches for the least gas of `estimate_gas` and `estimate_resources`.
--   Revert, SearchEnds and SearchFinds have the theorems.
--
-- Fuel: the binary search among the members takes one round more than there are members, and
-- Poc.Search shows that this is enough; the loop that writes the digits of a length takes that length
-- as its fuel, which Evm.Accounts.TextLaws shows to be enough, as every round divides by ten. The searches
-- of Rpc.Search take one turn for each unit, and Rpc.SearchEnds shows that 31 are enough, as each turn
-- halves the distance between the bounds. All other loops are structural.
--
-- Not modelled: `ensure_can_charge_fee`, which only reads and returns nothing, and the queries of
-- fees; the fungible traits of modules/currencies, which pass each call on; weights and benchmarks,
-- which are generated or measured; the encoding of storage keys; the interpreter of the EVM, which
-- is a library, and the gas that it counts; the other pallets of the runtime, of which
-- modules/staking is a copy of Substrate's; the node, its command line and its wiring, which are
-- input and output.
pub mod Base
pub mod Substrate
pub mod Poc
pub mod Evm
pub mod Payment
pub mod Currencies
pub mod Rpc
