-- ===== src/Lib.antt =====
-- Attested Capital runs a fund whose shares are NFTs. A fund manager (panthers-fund) keeps the
-- ledger of the accounts and the marketplace on which NFTs change hands. Guardians
-- (guardian-network) keep the fund manager's backups, and those that are sentries vote on
-- proposals, with a power that is the value of the NFTs they hold or that are delegated to them.
--
-- The files:
-- - Base, Action: shared names, signed integers, lists of rows; methods that mutate a store and may
--   throw, better-sqlite3's transactions, and the rules for what such methods keep.
-- - Ledger: panthers-fund/src/database/ledger.ts over schema.sql. The record Db is the database,
--   one field for each table; each method of DatabaseLedger that writes is the definition of the
--   same name in snake case, in Accounts, Trades, Withdrawals, Market, Swaps and Verify. Shares is
--   the split of a profit, a loss or a fee, which distributeTradePnL and distributeWithdrawalFee
--   compute. Calls is the ledger as its callers see it: any sequence of calls.
-- - Marketplace: panthers-fund/src/marketplace/marketplace.ts, on top of the ledger.
-- - Guardian: guardian-network/src/sentry/{proposals,voting}.ts and
--   guardian-network/src/guardian/{delegations,nft-staking,main}.ts over guardian-network/database/schema.sql.
-- - Envelope: guardian-network/src/shared/signed-envelope.ts, what the nodes send each other.
--   Hashing and signing are parameters. A Set of the tracker is a list in the order of insertion.
-- - Trading: panthers-fund/src/strategies/hard-limits.ts, and panthers-fund/src/agent/trading-engine.ts
--   on top of Ledger: Desk is the table of open positions beside the ledger, Selling handleSell, Cycle
--   the rest. Signals, prices and swaps are parameters; what is in order is in Orderly.
-- - Backups: guardian-network/src/guardian/storage.ts, where a guardian keeps the fund's backups.
-- - RpcRegistry: guardian-network/src/guardian/{rpc-registry,rpc-tester}.ts, the endpoints and their
--   tests; what a probe shows is a parameter.
-- - Agents: guardian-network/src/shared/{registry-types,registry-client,attestation,trust-store}.ts and
--   guardian-network/src/sentry/{agent-verification,registration-voting}.ts: which agent runs the fund.
--   Calls is the registry as its callers see it, one call at a time.
-- - Standby: panthers-fund/src/agent/{standby-mode,backup-coordination}.ts: a backup as a machine whose
--   events are timers and answers, and the requests of a guardian that
--   panthers-fund/src/agent/index.ts serves. BackupAgents: the table of backups in ledger.ts.
-- - Middleware: guardian-network/src/api/signed-middleware.ts, on top of Envelope and
--   Agents.TrustStore. Guardian/Peers: guardian-network/src/guardian/peers.ts.
-- - DbSync: guardian-network/src/guardian/db-sync.ts, on top of Envelope and Agents.TrustStore.
-- - Guardian/Health: guardian-network/src/guardian/health-monitor.ts.
-- - Protocol: guardian-network/src/shared/telegram-protocol.ts, the texts of announcements, of which
--   panthers-fund/src/agent/telegram-protocol.ts is a copy.
-- - Config: panthers-fund/src/agent/config-api.ts, and in Config/Governance
--   guardian-network/src/sentry/config-governance.ts: a proposal of Guardian changes the fund of Trading.
--
-- What the model leaves to its parameters: the time (`now`), random keys, what the fund manager
-- answers for an NFT, the value of a sentry's own NFTs, MAX_NFTS.
--
-- Numbers. Money is in cents. Amounts that a caller passes are integers of either sign; amounts
-- that are no integers are outside the model. `Math.trunc` of a quotient of doubles is the integer
-- quotient, which it equals while the balance times the amount is below 2^53. Percentages are
-- compared as exact fractions. AUTOINCREMENT keys are the number of rows plus one where nothing is
-- deleted from a table; the tables of backups and of open positions keep their last key. Prices of a
-- trade, which nothing computes with, are natural numbers.
--
-- The loops that hand out the remainder of a split run on fuel: one round for each cent of the
-- remainder and one more. That this is enough is part of what is stated of the splits.
--
-- Parsed JSON is taken at the type that the source declares for it. The checks of the source do not
-- ensure this of the overrides of config-api.ts, the payload of a snapshot, or an envelope with a
-- signature but without other fields; such values are outside the model.
--
-- Times. The ledger compares texts of one form, which are ordered as the seconds that they stand
-- for. The guardian compares ISO texts with SQLite's own, which are ordered otherwise
-- (Guardian/Clock). Columns that only record when a row was written are left out.
--
-- Not modelled: the HTTP and Telegram front ends, the language model's part of the agent, the
-- chains and exchanges, attestation and encryption, which are I/O or calls of libraries; the
-- components' list of the manifest names the others.

pub mod Base
pub mod Action
pub mod Ledger
pub mod Marketplace
pub mod Trading
pub mod Envelope
pub mod Guardian
pub mod Backups
pub mod RpcRegistry
pub mod Agents
pub mod Standby
pub mod BackupAgents
pub mod Config
pub mod DbSync
pub mod Middleware
pub mod Protocol
