-- ===== src/Lib.antt =====
-- The DiscoDrive client, its sync core: what it does to the synced folder, to its local index and to
-- the server, and the format of its encrypted files.
--
-- The parts and their files. One pass of the client (SyncOnce of daemon/internal/syncer/syncer.go)
-- asks the server for the scope epoch and then either pushes and pulls, or reconciles with a new
-- scope. It is `sync_once` in Sync.antt.
--   * The pull (PullOnce, apply, abs of daemon/internal/engine/engine.go) is Engine.antt:
--     `pull_once`, `pull_pages`, `apply_changes`, `apply` and the actions of its branches.
--     Engine/Apply, Pull, Pages, Removal and Fetch are about what it leaves in the index and on the
--     disk; Engine/Keeps has the rules for actions that leave the index alone or change it once.
--   * The push is in three files: Detect.antt (DetectLocal, daemon/internal/engine/detect.go),
--     Push.antt (pairLocalMoves and the order of daemon/internal/engine/push.go) and Sync.antt (the
--     loop of PushLocal, sweepOrphans and ResetForScope).
--   * The paths that the server names pass daemon/internal/safepath/safepath.go: SafePath.antt.
--   * The index (daemon/internal/index/index.go) is Index.antt, with the copies and the browsing in
--     Index/Copies and Index/Browse.
--   * Encrypted files (daemon/internal/vault/content.go) are Vault/Content.antt.
--   * Their names (daemon/internal/vault/name.go) are Vault/Siv.antt (AES-SIV) and Vault/Names.antt,
--     the tree of a vault in its storage (lazy.go, io.go, osio.go) Vault/Tree.antt, making and
--     opening a vault (vault.go) Vault/Master.antt, the encryption and decryption of a whole folder
--     (encrypt.go, decrypt.go) Vault/Encrypt.antt and Vault/Decrypt.antt, the wrapping of the keys
--     (keywrap.go) Vault/KeyWrap.antt, and the recovery phrase (recovery.go) Vault/Recovery.antt.
--   * The open vaults of a session (daemon/internal/vaultmgr/vaultmgr.go) are VaultMgr.antt, over an
--     interface `Host` for the file system and the trees of vaults.
--   * The loop that runs the passes (Run of syncer.go) is Syncer.antt, as a step relation.
--   * The browser of the mobile clients (daemon/mobile/browser.go) is Mobile.antt, on the same index
--     and world.
--   * The controller of the desktop application (daemon/internal/desktop/controller.go) is
--     Desktop.antt.
--   * The HTTP client (daemon/internal/protocol/client.go) is Protocol.antt, with the requests of the
--     synchronization in Protocol/Files, the pairing (pair.go) in Protocol/Pair and the REST
--     operations and uploads in Protocol/Uploads. It is over an interface `Http` for the network and
--     the text of JSON documents; `recording` of Protocol/Sent is a network that remembers the
--     requests. Go/Json, Go/Url and Go/Multipart are what it uses of encoding/json, net/url and
--     mime/multipart; Go/Base64 and Go/Base32 are the encodings of names and keys, Go/Strings has
--     Split and TrimSpace.
--   * Go/FilePath and Go/Strconv are what is used of Go's path/filepath, for paths with slashes, and
--     of strconv.
--   * Base has the shared names: lists and tests on native numbers, texts, sorting, and the actions
--     with a state and an error as `Exec`. Tests has concrete runs.
--
-- How the code is modelled. A text is the list of its bytes. Code with effects is a function from a
-- state to a result and a state, in do blocks; an error is a value, and `attempt` is an error that
-- the code looks at itself. A `Machine` is the index and the world outside. World.antt is the world
-- as an interface: every call to the file system and to the server may change its state in any way
-- and may fail, so that a theorem over every `W : World` holds whatever they do. The documented
-- behaviour that some theorems need is stated apart: World/Disk (what the calls do to the contents of
-- files), IsFeed of Engine/Pages (the feed has finitely many numbers), IsTree of SafePath/Contained
-- (nothing exists below a path that does not), IsAead, IsCiphers and IsBlockCipher of Vault (the
-- ciphers invert), IsSha1 of Vault/Names (a sum has 20 bytes), IsWordList of Vault/Recovery (4096
-- different words), IsHashes of Vault/Master/Jwt and HoldsVault of Vault/Master/RoundTrip (the
-- hashes, the JSON texts and the two files of a vault), Stored of Vault/Tree/Stored (a storage keeps
-- what was written), Serves of Protocol/Renewal (the server is reached and accepts the token that it
-- has just given), Stops of Protocol/Whole (the transport has stopped reading a body when Do returns,
-- which net/http does not promise) and KeepsPlain of VaultMgr/Closing. World/Memory is a world in
-- memory. A statement of the database is executed whole, or refused without effect, as the list
-- `faults` of an `Index` says.
--
-- Numbers. The int64 numbers of the code (sequence numbers, versions, sizes, epochs) are natural
-- numbers; where they pass through their decimal texts a theorem asks for less than 2 ^ 63. The chunk
-- number of a file wraps in its eight bytes as in the code.
--
-- Fuel. The number of pages of a pull is bounded by fuel. A page that is not the last moves the
-- cursor up, so that fuel for the numbers that the feed has left is enough. The walk from a path up
-- to the root takes at most its length in steps, and a chunk takes at least one byte of a file, so
-- that both take their fuel from a length. The desktop's refresh stops at a page that does not move
-- the cursor up. The recursion of EncryptTree and DecryptTree into folders and the loop of PairPoll
-- are on fuel, and Vault/Fuel and Protocol/Pair compare runs with different fuel; nothing bounds the
-- depth of a vault whose folders name one another, nor the number of answers that a pairing is
-- pending.
--
-- Not modelled: modification times, the texts of errors, contexts and cancellation, failures of the
-- reader and the writer of an encrypted file, and concurrent changes during a walk of the folder (the
-- walk delivers its entries before the callback runs). sort.Slice, which may reorder equal elements,
-- is a stable sort here. Not modelled are the TLS settings and the progress reports of the HTTP
-- client, its use by several goroutines at a time, the vault sessions of the desktop, the rest of the
-- mobile facade, the command line and the user interfaces, which call the parts above.
pub mod Base
pub mod Go
pub mod Index
pub mod World
pub mod SafePath
pub mod Engine
pub mod Protocol
pub mod Push
pub mod Detect
pub mod Sync
pub mod Vault
pub mod Tests
pub mod VaultMgr
pub mod Syncer
pub mod Mobile
pub mod Desktop
