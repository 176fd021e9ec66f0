-- ===== src/Lib.antt =====
-- okchain is a sharded block chain. A directory service committee (DS) and shards of nodes agree on
-- blocks by a two-round signature protocol with aggregated BLS signatures; a final block's
-- transactions are then run by an Ethereum virtual machine, and its fees are shared out. This
-- library models five parts: the consensus, the roles of the nodes that compose the blocks that it
-- is about, the Merkle tree of a block's transactions, the lists of transactions that wait in the
-- pool, and the block processing.
--
-- Bft, of core/server/consensus/blspbft: a leader announces a block, its backups answer with
-- signatures of it, the leader adds these up, marks the signers in a bool map and broadcasts the
-- block, after a second round of signatures on the first one where the committee holds the round.
--   Bft.Types, Bft.Env: constants, errors, messages and blocks; what the code only calls.
--   Bft.Quorum, Bft.Committee: the size of a quorum, the votes, and the loops over the sorted nodes
--     (constant.go, protos/peerendpoint.go).
--   Bft.Lead and below: consensus_lead.go. `Lead` is ConsensusLead with what it reaches;
--     Verify is verifyAndUpdate and verifySig2AndUpdate, Collect generateBoolMap, Compose
--     composeFinalCollectiveSig and composeBroadCastBlock, Handle the handlers from
--     ProcessConsensusMsg on.
--   Bft.Marks and below: VerifyMultiSignByBoolMap (core/server/peer.go) and BlsMultiPubkeyVerify
--     (protos/block.go).
--   Bft.Backup and below: consensus_backup.go. Sig1 is verifyBlockSig1, Adopt verifyBlock with
--     CheckCoinBase2 of protos/block.go, Handle the handlers; what is shown of them is in Laws,
--     Broadcast, Quiet and Guards.
-- Roles, of core/server/role, core/server/peer.go and protos/peerendpoint.go: what the committee
--   and the shards do between two rounds of the consensus, with the peer server as the state.
--   Roles.Peers, Roles.Types: PeerEndpointList with its sorts, the messages and blocks, the peer
--     server's data, and what the roles only call (`RoleEnv`).
--   Roles.Sharding and below: resetShardingId2ShardingNodeListMap and initShardingNodeInfo
--     (role_base.go): the committee's map of the shards, and a node's list of its own shard.
--   Roles.Submit and below: ProcessPoWSubmission and ProcessMicroBlockSubmission
--     (role_ds_base.go), with the lists of protos/peerendpoint.go that they fill.
--   Roles.Compose and below: composeDSBlock (role_ds_base.go) and verifyDSBlock
--     (role_ds_backup.go); Roles.Final and below: composeFinalBlock and verifyFinalBlock;
--     Roles.GasLimit: calcGasLimit.
--   Roles.ViewChange and below: GetNewLeader, StartViewChange and VerifyVCBlock (role_base.go),
--     composeVCBlock, and OnViewChangeConsensusStarted of the four roles.
--   Roles.States and below: what a state makes of a message (the `ProcessMsg` of core/server/state,
--     with core/server/constant.go and role_base_invalid_invoke.go).
--   Roles.Machine and below: a node whose roles and states change. Machine has ChangeRole,
--     ChangeState, onDsBlockReady, onFinalBlockReady and the start of a micro block consensus;
--     Machine.Blocks ProcessDSBlock and ProcessFinalBlock of the sharding roles, the idle and the
--     lookup role; Machine.Waits the ends of the committee's waits and its starts of a consensus;
--     Machine.Completed OnConsensusCompleted with what it calls; Machine.Revert RevertRole;
--     Machine.Start ProcessSetPrimary, ProcessStartPoW and ProcessNewAdd; Machine.Changes the start
--     of a view change, from StartViewChange of consense_handler.go on; and Machine.Steps runs over
--     all of these. InsertBlock, GetBlock, the micro block of the pool, GetCoinbaseByPubkey
--     and the verdicts of marshalling and signing are fields of `DutyEnv`, where a failure of
--     either is given as that of signing. What leaves the node, also from a goroutine, is kept in
--     a list of effects. A node's public key is the one of its own entry in the list of peers.
--   Roles.MicroBlocks and below: composeMicroblock (role_sharding_lead.go) and verifyMicroBlock
--     (role_sharding_backup.go).
--   Roles.Registration and below: ProcessRegister of the lookup node and what it sends
--     (role_lookup.go).
--   Roles.TxShard: CorrespondShardID, IsFiltered, FilterTxs, IsTxValidated and GetShardId
--     (core/server/peer.go).
-- Gas, of core/gaspool.go and core/state_transition.go: IntrinsicGas (Gas.Intrinsic), the gas pool
--   (Gas.Pool), and preCheck, buyGas, refundGas and TransitionDb (Gas.Transition).
-- Pool, of core/txpool/tx_list.go: the transactions of an account by their nonces.
--   Pool.SortedMap and below: `Get`, `Put`, `Forward`, `Filter`, `Remove` and `Ready` of
--     txSortedMap, whose heap of nonces is a list in the order in which container/heap pops them.
--   Pool.TxList and below: `Add`, `Filter` and `Remove` of txList, with `Cost` of
--     protos/transaction.go.
-- Merkel, of crypto/merkel/merkel.go and protos/tx_merkel.go: NewMerkleTree, whose levels are lists
--   of nodes, ComputeMerkelRoot and VerifyMerkelRoot, over any SHA-256.
-- Rewards, of core/state_processor.go: assignRwards (Rewards.Assign), and ApplyTransaction and
--   Process with AsMsg of protos/transaction.go (Rewards.Process).
-- Prelude: the names, tests, lists, words and results that the parts share.
--
-- Operations take and return the state. An error is a value of an Error type, and `none` at the
-- outside of a result is a panic; in Roles.Machine it is also a call that never returns, since it
-- waits for a lock that its caller holds. A uint64 is a natural number with its wrap-around written out; a
-- big.Int that the code keeps from being negative is a natural number; so are byte strings,
-- addresses, keys and signatures, which are compared and handed on; only in Merkel, which joins
-- them, byte strings are lists. Loops are structural recursions on lists or on the rounds that are
-- left. Only the calls of ProcessMsg inside each other (Roles.States) run on fuel, and what is
-- shown of them holds for every amount of it but none.
--
-- Not modelled: BLS, hashes, protobuf encodings, the message signer, CalStateRoot and the role's
-- methods, which are fields of Bft.Env.Env and Bft.Backup.Handle.Role; the virtual machine, a field
-- of Gas.Transition.Evm with the law that it leaves no more gas than it was given; GetShardId, with
-- its panic on an unknown DS block, and Finalise, fields of Rewards.Process.Env; the miner's Verify, the hashes and the Merkel root of
-- Roles.Types.RoleEnv (Merkel models the root apart from it), and the signer of
-- Roles.TxShard.TxEnv. Of the transaction pool, `Cap`, `Flatten`, the priced list and the pool's
-- own limits are left out. Of the roles, the envelopes of the consensus messages, the connections
-- between the nodes (UpdateRoleList gives the committee as an argument), channels and time stamps
-- are left out; a timer that runs out is an event that may come at any time. A message is one step: the leader's mutex covers the writes, and of a
-- goroutine that multicasts only the message is kept. Equal sort keys, on which Go's unstable sort
-- leaves the order open, keep their order. The messages' absent parts (a nil header or block) are
-- not modelled, nor are logs.
pub mod Prelude
pub mod Gas
pub mod Rewards
pub mod Bft
pub mod Pool
pub mod Merkel
pub mod Roles
