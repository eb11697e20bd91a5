-- ===== src/Lib.antt =====
-- WeaveFTPd, an FTP server in Go: one master keeps the accounts, the rights, a virtual file system
-- and the sessions; slaves keep the files. A command asks the rules whether the account may act on
-- a path, a transfer reserves its path, the file system takes up the entry when it is done, and the
-- account is charged or credited; a nuke takes credits back.
--
-- Modules and the code they follow:
-- - Base: shared types. Texts are lists of bytes, maps are association lists, int and int64 are
--   signed integers over the native numbers whose sums and products wrap (Base/Int64).
-- - GoPath: path.Clean, path.Dir, path.Base and path.Match of Go's library, on Unix.
-- - User, internal/user/user.go: User and StatLine (Account), saturatingCreditGain and
--   saturatingCreditAdd (Credits), ResetTransferStatPeriodsIfDue (Periods), and what
--   UpdateStatsWithCredits does to the account that it has loaded (Transfers).
-- - Nuke, internal/core/nuke_helpers.go: nukeCreditPenalty, clampCreditRemoval, and what
--   ApplyNukeCredits and ApplyUnnukeCredits do to one account (Credits).
-- - Acl, internal/acl/acl.go: checkRequirement (Requirement), parseRequirementScalar and
--   requirementToLegacyString (Scalar), the paths of rules (Rules), LoadEngine on lines, CanPerform
--   and the other questions (Engine).
-- - Vfs, internal/master/vfs.go: cleanVFSPath and the tests on paths (Paths), VirtualFileSystem
--   (State), the file system that cmd/weaveftpd/main.go starts with, by SetProtectedDirs,
--   SetHiddenPaths and SetExcludePaths (Start), the paths of slaves (Index), ancestors and links
--   (Tree), AddFile (Merge, Write), the other updates (Write), GetFile, ListDirectory and
--   ResolvePath (Read), MarkAllUnseen (Slaves), ClearSlave (Clear), collectSubtreePathsLocked
--   (Collect), DeleteFile (Delete), MarkSubtreeUnseen, PurgeUnseen, PurgeUnseenSubtree and
--   PurgeMissingChildren (Purge).
-- - Zip, internal/zipscript/local_sfv.go and raceEntryKey of module.go beside it:
--   ParseLocalSFVEntryLine, the loops of LocalSFVEntriesForDir, and CachedExpectedCRC (Sfv).
-- - Bans, internal/core/banlist.go: LoadUserBanEntries, SaveUserBanEntries, FindUserBan, AddUserBan
--   and RemoveUserBan (Banlist), the numbers in the lines (Decimal).
-- - Slaves, internal/master/slave_manager.go: recordAuthFailure, clearAuthState and isAuthBanned
--   (Auth), the policies of slaves and the paths that they can store (Policy),
--   SelectSlaveForUpload, SelectSlaveForDownload and deleteTargetsForPath (Select), the media
--   information, announcements and race windows of releases (Releases).
-- - Rights, internal/core/owner_acl.go: canDeletePath, canRemoveDirPath and canRenamePath (Owner).
-- - Port, internal/core/transfer_port.go: parsePortTarget and shouldRejectPortTarget (Target).
-- - Session, internal/core/session_registry.go: the reservations of paths (Reservations) and the
--   counts of sessions and transfers (Counts). In each of these, the files whose names end in Laws,
--   AddDirs, BuiltStates and DeletedLinks hold proofs, and those whose names end in Examples hold
--   runs.
--
-- State is passed explicitly: a Go method that changes its receiver is a function from the state to
-- the state, and locks are not modelled. The methods of the file system, the reservations, the
-- counts, the guard and the releases hold a lock throughout, so that a call is one step; AddUserBan
-- and RemoveUserBan load and save the file under one lock each, so that a call is one step only
-- where no other comes between. An error is none.
--
-- Parameters. The calendar of the server's zone is `local`. The quotient of float64s by which
-- slaves are compared is `quotient_bits`; its results are compared as their bits. The listing in
-- which the owner of a path is looked up is `list_dir`. Texts are ASCII where case and white space
-- matter.
--
-- Fuel. The parser of path.Match and the expansion of braces take the length of the pattern, of
-- which every step takes at least one byte or one brace; the walks over the directories above a
-- path take its length; a printed int64 takes at most twenty digits. The walk over a subtree takes
-- one round for each directory in it, counted down to a depth of the length of the longest linked
-- path, since every link leads to a longer path.
--
-- A map is visited in the order of its entries. The instant of an operation is an argument. A path
-- is tidy if no element is empty, "." or "..", and none ends in white space.
--
-- Not modelled: the snapshot of the file system on disk, the caches of race results, the YAML
-- format of the rules, the userfiles with their cache and all that loads and saves accounts, the
-- text of nuke records, a change of the protected, hidden and excluded paths of a file system in
-- use, renaming in the file system, the race data and the caches of SFV files, the renaming of the
-- state of releases, whose loop over a map that it changes has no fixed order; the protocol with
-- the slaves, the commands, the plugins, the site bot and everything that is I/O.
pub mod Base
pub mod GoPath
pub mod User
pub mod Nuke
pub mod Acl
pub mod Vfs
pub mod Zip
pub mod Bans
pub mod Rights
pub mod Port
pub mod Session
pub mod Slaves
