-- ===== src/Lib.antt =====
-- Boxi, a graphical front end to the Box Backup client: the parts of src/ and include/ that decide
-- what is backed up, keep the client's configuration and restore files.
--
-- Location models include/Location.h and src/Location.cc. A `Location` is the record of that name,
-- an exclude entry is `ExcludeEntry`, its list `ExcludeList`, with the listener as a flag; an
-- operation also gives whether the listener is called. `GetExcludedState`, its two passes and its out parameters are in
-- Location/Excluded, what they amount to in Location/Verdict; the editing of a list in
-- Location/ExcludeList with its theorems in Editing, Removing and Replacing; the conversion into Box
-- Backup's own lists in Location/BoxList; the configuration lines in Location/Names.
--
-- Property models include/Property.h and src/Property.cc: the three classes as one record over the
-- type of the value, in Property and Property/Ints, Bools and Strings. The locations and the
-- properties of the configuration share nothing but the listener, which is called on a change.
--
-- Restore models src/Restore.cc. Resume has `RestoreResumeInfo` and the bytes of its file, Dir has
-- `BackupClientRestoreDir`, Driver has `ServerConnection::Restore`. The state is what outlasts a run:
-- the resume file and the decoded files that are on the disk, of which an `unlink` takes one away;
-- a failed assertion ends the run, as the build does not set NDEBUG. The levels of the resumption information are
-- shared between the caller and `rParams.mpResumeInfo`; here a level is passed with its `Place`, a
-- function that puts it back into the whole, so each save writes what the pointer shows at that
-- time. Every call of the server, the file system or Box Backup's library is answered by `Outside`
-- by its number, so that any call that can throw or fail may do so. Paths has what lies under a
-- local name. Truth, Ensures, Files, Subdirs and Sound have the
-- invariant through a run, Outcome and Finishes what a run gives.
--
-- Connection models include/ClientConnection.h and src/ClientConnection.cc. State has the fields
-- and the requests of the window, Pid the PID file and `KillClient`, Worker and Idle the handlers
-- of the worker thread. A function that holds the mutex to its end is one step. A handler takes a
-- list of events for each stretch in which it does not hold the mutex: requests, kills, looks at
-- the PID file and the end of the client's process, in any number and order. No run of the program
-- comes past FirstConnect, as the first attempt to connect crashes; the handlers of the later states
-- are modelled as they stand, without a result that is listed below.
--
-- Config models the locations and the listeners of include/ClientConfig.h and src/ClientConfig.cc:
-- a pointer to a location is its position, a listener is a number, and the calls of `NotifyChange`
-- are a list. Lifecycle and Client have `Load`, `IsClean` and `Reset` of the whole, Clean what they
-- promise. Checks, Certificates and Checking have `Check` with its tests, each of which is given
-- what follows it; Checked joins it to Server: the configuration that was checked is the one that the
-- connection reads. OpenSSL is `Ssl`, the file system and the resolver `Disk`.
--
-- RestoreFiles models src/RestoreProgressPanel.cc with the nodes and the specification of
-- include/RestoreFilesPanel.h and src/RestoreFilesPanel.cc. Cache has `ServerCacheNode` as a tree,
-- in which an address stands for a pointer and a node that cannot be listed has no children; Spec
-- has `RestoreSpec`, Count `CountFilesRecursive`, Fetch `RestoreFilesRecursive`, LocalPath
-- `MakeLocalPath` and Panel `StartRestore`. The calls of the file system and of the server are
-- answered by `Disc` by their number, and `mRestoreStopRequested` by the number of looks at it.
-- `Job` says which directories can be listed while counting, since a listing that failed is asked
-- for again.
-- Selected and Whole describe independently which files a specification selects; Counted,
-- CountedAll, Fetched, FetchedAs, LocalName and Finished compare the program with that. Tree has
-- `UpdateState` and `OnTreeNodeActivate`, in which a pointer into the vector of the entries is a
-- position there; TreeStates has what a state shows, Toggled what a click does.
--
-- Server models include/ServerConnection.h and src/ServerConnection.cc: Session has the members,
-- `Disconnect` and `HandleException`, Connecting `Connect`, Operations what is asked of the server.
-- `Net` there answers each call by its number. `GetFile` and `Connect` appear in RestoreFiles as
-- answers of `Disc` and `Account`, since their results are all that is used of them.
--
-- Fuel: `load` gets the length of the file, and each level takes sixteen bytes at least;
-- `show_digits` gets ten digits, which an `int` has at most, and `show_hex` eight, as many as 32
-- bits have; `restore_dir` gets a bound on the depth of the directories, under which the theorems
-- prove that it is enough.
--
-- Text is a list of bytes: a wxString is its bytes under wxConvBoxi. Parameters stand for code of
-- other libraries: `Platform` for wxFileName and the regular expressions, `KeyReader` for Box
-- Backup's Configuration, `Outside` for its protocol and the file system, `System`, `Net` and
-- `Reading` for the calls of the connection. Not modelled are the windows and dialogs, drawing,
-- translation, and the bundled chart library; of the configuration, what writes
-- it as a whole; of a restore, a save that is cut off in the middle of the file, and a listing that
-- changes on the server meanwhile; of the nodes, how a listing is turned into them,
-- and their icons.
pub mod Prelude
pub mod Location
pub mod Property
pub mod Restore
pub mod Connection
pub mod Config
pub mod RestoreFiles
pub mod Server
