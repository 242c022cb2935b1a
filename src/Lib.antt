-- ===== src/Lib.antt =====
-- The core of MCPdef, a gateway between agents and MCP servers: what decides whether a call goes
-- through, and what is written of it. The listener checks a request's headers against its body. A
-- request's URI is put in normal form, the server's allowlists and the caller's roles judge it by
-- globs, the policy rules judge it next, a rate limiter may shed it, and a tool's definition is held
-- to its pin. The egress guard judges the address of an upstream, and the audit ledger keeps each
-- decision in a chain of hashes.
--
-- Glob: crates/mcpdef-policy/src/glob.rs.
--   Glob.Pattern says what it is to match a pattern, in one way for characters and for path
--   segments. Glob.Names is the names dialect (names). Glob.Paths is the path of the URI dialect
--   (runs, flat, path_matches). Glob.UriGlob is a compiled pattern (UriGlob, new, matches).
--   Glob.Search and Glob.Overlap are the search for a name that two patterns share
--   (patterns_overlap, names_overlap), and Glob.Shared the search for a URI (overlaps).
-- Uri: crates/mcpdef-policy/src/uri.rs.
--   Uri holds normalize and the scheme's rules, Uri.Escape the percent escapes (unescape,
--   escaped_twice), Uri.Dots the dot segments (remove_dot_segments), Uri.Parts the record Uri with
--   its accessors and segment_ranges, and Uri.Refusal the enum Refused.
-- Decision: the enum Decision of crates/mcpdef-core/src/lib.rs.
-- Policy and Rbac: crates/mcpdef-policy/src/lib.rs, the allowlists and the roles.
-- Rules: the rules of crates/mcpdef-policy/src/rules.rs up to evaluate, over the JSON of Json.
-- Transform: the edits of arguments of crates/mcpdef-policy/src/transform.rs.
-- Passes: PolicyRules and its transform, of rules.rs, over the edits of Transform.
-- RateLimit: crates/mcpdef-ratelimit/src/lib.rs.
-- Pin: the store of crates/mcpdef-pin/src/lib.rs, and Pin.Hash its tool_hash.
-- Audit: crates/mcpdef-audit/src/lib.rs. Audit holds the data, Audit.Hash the hash of a record
--   (later_members, compute_hash, has_separator, without_separator), Audit.Lines the lines of a
--   file, Audit.Store the ledger (open, append, read_all, tail), Audit.Verify verify_marked, verify
--   and verify_against, and Audit.Tamper what a sealed head says of two files, with
--   Audit.Hash.Members and Audit.Hash.Fields on what the text of the later members fixes.
--   Json.Canonical is canonical_json, which is also the pins' canonicalize.
-- Message: the message of crates/mcpdef-core/src/lib.rs, and its method names.
-- Wire: crates/mcpdef-core/src/wire.rs. Wire holds the revisions and the readings of _meta, Wire.Meta
--   the stamping and stripping of a request, Wire.Headers the mirrored headers, their encoding and
--   validate_headers, Wire.Schema param_headers and its walk, Wire.Params the parameter headers and
--   their check, and Wire.Replies the readings of errors, discovery and interim results.
-- Egress: crates/mcpdef-transport/src/egress.rs, with the classes of addresses in
--   Egress.Address and their blocks in Egress.Blocks.
-- Str, Table and Json stand for the standard library's strings and maps and for serde_json's
--   values; Prelude holds the shared lemmas.
-- Tests: examples.
--
-- The ledger's file is its text, and a record's number wraps at 2^64 as the source's u64 does in a
-- release build; a file that holds an unfinished line is not one of a valid ledger.
--
-- Text is a list of code points; the source's byte offsets are counted in characters, which mark the
-- same places. A map is a list of entries that holds a key once. State is passed: an operation
-- returns the state after it.
--
-- Fuel: the overlap search runs on three rounds for each cell of its table and two more, since a
-- node pushes three others at most and is expanded once. The removal of dot segments runs on one
-- round for each character and one more, since every round shortens its input or is the last.
--
-- Parameters: the floats and the clock of the limiter (RateLimit.Numbers, with RateLimit.IsOrdered
-- for what is relied on), the equality and the number readings of serde_json (Transform.Serde), the
-- sort at the end of diff, SHA-256, a string's literal and a record's line (Audit.Codec), Base64,
-- UTF-8 and the debug form of a text (Wire.Headers.Codecs), the number readings of the parameter
-- headers (Wire.Params.Numbers), the URL parser and the resolver (Egress.Net), and what a transform
-- effect and a result edit hold (Rules, Passes).
--
-- Not modelled: the edits of results (crates/mcpdef-policy/src/result.rs and
-- PolicyRules::transform_result), loading and saving of pins, which are files, the exports, the pages
-- and the lock of the audit log, the text form of messages, and the crates that serve the network,
-- hold secrets or read the configuration.
pub mod Prelude
pub mod Str
pub mod Glob
pub mod Uri
pub mod Table
pub mod Decision
pub mod Policy
pub mod Rbac
pub mod RateLimit
pub mod Pin
pub mod Json
pub mod Audit
pub mod Message
pub mod Wire
pub mod Egress
pub mod Rules
pub mod Transform
pub mod Passes
mod Tests
