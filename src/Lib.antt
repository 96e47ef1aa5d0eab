-- ===== src/Lib.antt =====
-- The client of Umbra Gateway, a desktop wallet whose RPC calls go through a gateway that is paid per
-- call over the x402 protocol, directly or through Tor. The client is the TypeScript code under
-- client/src; paths in the files' comments start at the root of the repository.
--
--   * X402 is client/src/main/x402Client.ts. X402.Types has the state of the module (the token cache,
--     the times of rejected payments) as the record World, with a trace of all requests, signatures
--     and log entries, and what lies outside as the record Env: answers of the network, readings of
--     the clock, viem's functions. X402.Token, X402.Cooldown and X402.Protocol hold the helpers,
--     X402.Request is processRequest in the order of the code, X402.Queue the serial queue of each
--     gateway, as a machine of calls and ends of tasks.
--   * GatewayFetch is client/src/main/gatewayFetch.ts: which way a request takes.
--   * Tor is client/src/main/torProcess.ts, a machine of calls, of events of the process and of its
--     timer; Tor.Startup is the launch in client/src/main/index.ts that waits for it, and Tor.Closing what
--     comes after it: the windows closed and opened again, and the quit.
--   * Helios is client/src/main/helios.ts; its calls run from one await to the next in one step, and
--     the steps of several calls may interleave.
--   * Rpc is client/src/main/rpc.ts: rpcCall chooses between the light client of Helios and
--     x402_request of X402.Request; Rpc.Wallet has the balances and the transfer of tokens.
--   * LocalProxy is client/src/main/localProxy.ts: the handler of the server that the light client uses,
--     and in LocalProxy.Server its start and stop, whose calls may overlap.
--   * Keystore is client/src/main/keystore.ts with the handler wallet:importKey, Logger is
--     client/src/main/logger.ts, Balance the handlers of client/src/main/index.ts that share the cached
--     balance, WalletConnect is client/src/renderer/walletconnect.ts.
--   * Storage is client/src/main/adapters/storage.ts, over a key-value store, the encryption of the
--     operating system and a pair of functions that write and read JSON.
--   * Ipc has other handlers of client/src/main/index.ts: Ipc.Signing those that sign for other
--     applications, Ipc.Panics that of uncaught exceptions, Ipc.Status those that read the state of Tor
--     and of the light client, Ipc.Controllers the window and the states that are sent to it.
--   * Panels is client/src/renderer/App.tsx and client/src/renderer/components: each panel is a machine
--     of what the user does and of the replies of the main process, in any order in which these can
--     come. Panels.StatusBar is PrivacyStatusBar.tsx, Panels.Approvals and Panels.Requests are
--     WCApprovalModal.tsx, Panels.Send, Panels.Sending and Panels.Wallet are
--     WalletPanel.tsx, Panels.Gateway is GatewayPanel.tsx with the handlers it calls, Panels.Calls is
--     RpcTestPanel.tsx, Panels.Tokens is client/src/renderer/tokens.ts. Panels.Log is the way of a log entry
--     from the logger over the preload script and App.tsx to ActivityLog.tsx. Panels.Sessions is
--     WalletConnectPanel.tsx, which App.tsx has commented out, so that the proposals and requests of
--     Panels.Approvals do not come as long as it is.
--   * Desktop puts the main process together: the functions of client/src/preload/index.ts as calls, the
--     handlers of client/src/main/index.ts that answer them over the states of Keystore, Rpc, Helios and
--     Tor, the requests of the light client to the handler of LocalProxy, and runs of these, of the ends of
--     waits of the light client and of changes of Tor.
--
-- Code that awaits and throws is written in Exec: an action takes the state and returns a value or the
-- message of an error, with the state that it leaves. Exec.Stable, Exec.Yields and Exec.Adds have the rules by
-- which properties of the state, of the value and counts are carried through such code. Prelude has the operations on
-- strings, numbers, maps and JSON values that the code uses; characters are code points, and JSON
-- values are kept parsed. JSON numbers are whole. Loops are by recursion on lists, and
-- the machines run over lists of events, of any length and in any order. The only fuel is in the
-- printing of a number n, with n + 1 steps for its digits, each of which divides it by ten.
--
-- In processRequest, in Rpc, in WalletConnect, in Keystore, in Storage, in Ipc.Signing and in Desktop, nothing
-- else runs during an await: for
-- processRequest the queue of the gateway sees to that, and X402.Request.Isolation is about the queues
-- of different gateways, which do interleave.
--
-- Not modelled: the gateway, which is written in Go; the markup of the panels and the flags
-- of copied texts; the window manager, the notifications and the subscription of the preload script to
-- refreshes, which forward calls of Electron; what Electron, Tor, the light client,
-- viem and WalletKit do inside; the wallet library that is vendored beside the client; the transport of
-- bytes.
pub mod Prelude
pub mod Exec
pub mod X402
pub mod GatewayFetch
pub mod Tor
pub mod Helios
pub mod Rpc
pub mod LocalProxy
pub mod Keystore
pub mod Storage
pub mod Logger
pub mod Balance
pub mod WalletConnect
pub mod Ipc
pub mod Panels
pub mod Desktop
