-- ===== src/Lib.antt =====
-- A model of libvzctl, the library that manages containers, of its parts with their own logic.
--
-- Common: numbers, lists, byte strings (the bytes before the NUL) and the error codes of
--   lib/vzerror.h. A C function that returns a code and changes its argument returns both.
-- Snapshot: lib/snapshot.c. The tree is a list of entries in the array's order; Snapshot/Lookup,
--   Forest, Delete and Keep are about its operations. Snapshot/Create, Switch and Remove hold the
--   functions that create, switch to, delete, mount and umount a snapshot, every early return and
--   label included. What they call outside the tree is an argument that holds the results, and they
--   return the sequence of those calls (Snapshot/Flow), from which views compute whether the
--   container is frozen, whether the lock is held, and what Snapshots.xml holds.
-- Line: parse_line, unescapestr, uncommentstr and strip_end of lib/util.c, which read one line
--   NAME=VALUE. Line/Print is about reading a printed line.
-- Config: lib/config.c, and the two lists of names of lib/env_config.c. The array of entries is a
--   list; files are the bytes that `fopen` yields, read in the pieces that `fgets` returns (4096 * 10
--   bytes when a file is parsed, 64 * 1024 when it is saved). Config/Map is about the configuration
--   as a map, Config/Save holds vzctl2_conf_save, and its modules are about what it writes.
-- Ub: lib/ub.c, the beancounter limits. Ub/Fields and Ub/Laws are about the limits as a map, and
--   Ub/Apply about the system calls that set them.
-- OnOff: the lists `name:on name:off` that features and capabilities share, with the bound of the
--   printing buffer. A mask is the function from its bits.
-- Features: the feature masks of lib/vzfeatures.c; Features/Trip is about printing and parsing them.
-- Tech: the technologies and the version comparison of lib/vzfeatures.c; Tech/Order is about them.
-- Cap: lib/cap.c; Cap/Trip is about printing and parsing capabilities, Cap/Bounding about dropping
--   them from the bounding set and about applying masks.
-- Links: the intrusive lists of lib/list.h as two fields of each address. Links/Ring says which list
--   a head stands for; Links/Moves and Links/Walk are about taking out, moving and visiting.
-- Hook: lib/hook.c and lib/cleanup.c, on the lists of Links.
-- Strs: the lists of strings of lib/util.c, as the lists that their heads stand for; Strs/Merge is
--   about merge_str_list, Strs/Trip about list2str and parse_str_param.
-- Escape: how lib/util.c escapes and unescapes descriptions; Escape/Trip is about both together.
-- Names: check_name and its callers, yes and no, container types and size suffixes of lib/util.c.
-- NameLinks: the names of containers as links to their configurations, lib/name.c, and the search by
--   name of lib/vz.c. NameLinks/Lookup is about the search, NameLinks/Safe about the names of other
--   containers, NameLinks/Assign about the name that is set.
-- Numbers: the parsers of numbers and of pairs of limits in lib/util.c; Numbers/Bounds and
--   Numbers/Trip are about them.
-- Net: the addresses of a container, lib/net.c. Net/Assign is about the loop with its rollback, Net/Venet
--   holds add_ip, del_ip and apply_venet_param, and Net/Apply is about them.
-- Disk: lib/disk.c. Disk/Text prints and parses the parameter DISK, Disk/Table is the list of disks,
--   Disk/Add and Disk/Change are the operations; each has child modules about it.
-- Register: registering and unregistering of lib/vz.c (Register/Enter, Register/Leave), with the checks
--   in front of it (Register/Owner); Register/Paths is about both.
-- Create: vzctl2_env_create of lib/create.c, over Register and over Create/Private, which is
--   create_env_private; Create/Paths is about them.
-- Bitmap: lib/bitmap.c. Bitmap/Search is about the search by words, Bitmap/Text holds the printing
--   and parsing of ranges, and its modules are about them; Bitmap/Words is about the operations on
--   whole words.
-- Lock: lib/lock.c. Lock/File is the loop of _lock_file, one system call at a time, with the lock file
--   as the state that processes share; Lock/Flock the locks on descriptors, Lock/Env the two locks
--   of a container.
-- Env: the life cycle of a container in lib/env.c. Env/Start, Stop, Chkpnt, Restore, Restart and Pause
--   hold the functions with every early return and label; as in Snapshot, the results of their calls
--   are an argument, and they return the sequence of the calls. Start and Restart contain the whole
--   of Stop. Env/Left computes from the calls whether the container runs, is mounted, is registered
--   or has a dump, and whether the pipes and the enter lock are held.
--
-- Loops are recursions on a list or on a number of rounds. Where the number is an argument there is a
-- bound that is enough: ver_cmp of Tech takes a byte of the first string in each round; a round of
-- the loop of _lock_file takes three calls of at most nine; a round of bitmap_snprintf prints at
-- least one bit of the mask, one of the parser takes a byte. list_for_each, and flock under signals,
-- are given any number of rounds.
-- The results of system calls and of the other calls outside a component are arguments, and so the
-- branches for their errors are in the model. Allocations are arguments in Ub, Snapshot, Config and
-- Strs; Disk, Net and Create take them to work. What else a definition takes to work is said above it.
--
-- Left out are the XML reader and writer, the log, the release of memory, and the parts of the
-- library that mainly call the kernel or other programs: network devices, disk images, control groups,
-- and what env_ops and criu do to a container.
pub mod Common
pub mod Snapshot
pub mod Line
pub mod Names
pub mod NameLinks
pub mod Escape
pub mod Config
pub mod Ub
pub mod OnOff
pub mod Bitmap
pub mod Features
pub mod Cap
pub mod Env
pub mod Hook
pub mod Links
pub mod Lock
pub mod Create
pub mod Disk
pub mod Net
pub mod Numbers
pub mod Register
pub mod Strs
pub mod Tech
