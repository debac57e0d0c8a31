-- ===== src/Lib.antt =====
-- Verification of parts of UVM-SystemC (directory src/uvmsc of the repository): the library in C++ with
-- which test benches are built on SystemC.
--
-- The program's parts that are modelled, and the files for them:
--
-- * The memory allocation manager (src/uvmsc/reg/uvm_mem_mam.cpp) hands out address ranges of a memory.
--   Mam has its records and one function per member function: reserve_region, request_region,
--   release_region, release_all_regions, reconfigure, for_each. Mam/Layout says what a well-formed list
--   of regions is and which addresses are taken; Mam/Reserve, Mam/Release and Mam/Iterate are about the
--   operations; Mam/Defects about what goes wrong at the ends of the address space.
-- * A register field (src/uvmsc/reg/uvm_reg_field.cpp) keeps a mirror of the hardware and a desired
--   value under one of 25 access policies. RegField has the state and the member functions configure,
--   set_access, set, reset, get_reset, has_reset, set_reset, needs_update, m_predict and m_update,
--   RegField/Observing do_predict, predict, and the value that do_write puts on the bus for the other
--   fields.
--   RegField/Policy has the policies and get_access; RegField/Effects the effect of a policy bit by
--   bit, after the table in the comment of set_access; RegField/Predict, Desired and Siblings relate the
--   operations to it, MapRights the rights of a map, and RegField/Bounds and Runs are about the size
--   of the values.
-- * A register (src/uvmsc/reg/uvm_reg.cpp) is the word of its fields, and hands its operations on to
--   them. Reg has add_field, set, get, get_mirrored_value, needs_update, reset, get_reset, has_reset,
--   set_reset and update up to its write, Reg/Mirror do_predict, predict and do_check. Reg/Image is
--   about the bits of the word, Layout and Adding about where fields may lie, Fields about one field in
--   the word, and Predict, Direct and Check about the mirror.
-- * A report (src/uvmsc/report) goes from the handler of an object through the catchers to the server.
--   Report has the message, Report/Handler the settings and lookups (uvm_report_handler.cpp),
--   Report/Catchers the catchers (uvm_report_catcher.cpp), Report/Server the counts and actions
--   (uvm_default_report_server.cpp). Report/Settings and Lookups are about what was set last, Caught about
--   the debug flags of the catchers, Quits about the end of a run by the quit count.
-- * The graph of phases (src/uvmsc/phasing/uvm_phase.cpp): Phase has the branches of add and the searches,
--   Phase/Placing add and find, Phase/Jumping jump and clear_successors. Phase/Edges is about the two
--   directions of the edges, Order about the order of the phases, Search about is_before.
-- * An objection (src/uvmsc/phasing/uvm_objection.cpp) keeps a phase from ending. Objection has its
--   counts, the drains that wait to be forked, to start or to end, and the functions raise_objection,
--   drop_objection, m_raise, m_drop and m_propagate (next_object); Objection/Draining has
--   m_execute_scheduled_forks (execute_scheduled_fork), m_forked_drain_guard and m_forked_drain
--   (start_drain, finish_drain) and clear. Objection/Hierarchy is the component tree; Objection/Ledger
--   and Objection/Updates keep the books of what each object passes on to its parent;
--   Objection/Balance, Drop, Catch, Raise, Forks, Starts and Drains are about what each operation does
--   to them; Objection/Reach is the step relation, Objection/Clearing about clear.
-- * The arbitration of a sequencer (src/uvmsc/seq/uvm_sequencer_base.cpp) decides which sequence goes
--   next. Sequencer has is_child, is_blocked, has_lock, grant_queued_locks, m_lock_req, m_unlock_req and
--   m_choose_next_request with its six modes; a sequence is the chain of its parent sequences.
--   Sequencer/Service has wait_for_grant, m_select_sequence and remove_sequence_from_queues.
--   Sequencer/Locks is about the locks, Served, Fairness and Serving about runs of events under FIFO,
--   Choice about what may be chosen, Priority about the strict mode
--   and Randomness about the random one.
-- * The packer (src/uvmsc/policy/uvm_packer.cpp) turns values into a string of bits and back. Packer has
--   its storage and the functions that pack, unpack, put and get. Packer/Storage reads it as a queue of
--   bits; Packer/Queue is about the bit by bit loops, Fields and Strings about what each unpacking
--   function takes, Items and Packing about runs of calls; Packer/Refinement relates it to a queue of items and
--   Packer/Transfer hands the bits to another packer.
-- * The factory (src/uvmsc/factory/uvm_default_factory.cpp, uvm_factory_override.cpp) replaces types by
--   others when objects are created. Factory has do_register and the functions that set overrides by
--   type, and set_type_override_by_name; Factory/Names has set_inst_override_by_name, Factory/Search
--   find_override_by_type, find_override_by_name and the create functions. Factory/Trace says what a search
--   does, Factory/Typed, Setting, Fresh and Termination are about its end where overrides were set by type,
--   and Factory/Overrides, Steps and Instances about what setting an override changes.
-- * A register map (src/uvmsc/reg/uvm_reg_map.cpp) gives registers and memories their addresses on the bus.
--   RegMap has get_physical_addresses over a map and those above it, get_base_addr and
--   get_addr_unit_bytes. RegMap/Coverage counts the addresses, RegMap/Consecutive, Order and Addresses are about
--   where they lie. RegMap/Tables has the tables by address that m_init_address_map fills and m_set_reg_offset changes,
--   with get_reg_by_offset and get_mem_by_offset; RegMap/Entries is about one address, RegMap/Decoding
--   about what the lookups answer.
-- * Patterns (src/uvmsc/base/uvm_globals.cpp): Glob has uvm_glob_to_re, uvm_is_match and
--   uvm_has_wildcard, Glob/Buffer their texts. The factory matches paths with uvm_is_match, which it takes
--   as a parameter.
-- * The resource pool (src/uvmsc/conf/uvm_resource_pool.cpp) finds configuration values by name or type.
--   Resources has set, lookup_name, lookup_type, get_by_name, get_by_type, get_highest_precedence,
--   sort_by_precedence and the functions that set priorities. Resources/Precedence and Highest are about the
--   order of precedence, Resources/Lookup about what is found.
-- * The data access policies (src/uvmsc/dap): Dap has the functions of the three, Dap/Runs is about runs of
--   calls on them.
-- * Common has the shared tests, lists, maps and words.
--
-- The parts share SystemC and the report macros, and call each other only as said here.
-- Drains are processes. Objection/Reach has their steps between calls of raise and drop, in any order, but
-- not clear; InOrder there says in which orders each process takes its own drain.
--
-- Bounds and fuel. Offsets and field values are words of 64 bits, sizes of 32, with their wrap written
-- out. The values of a field are moved by less than 64. Priorities and counts of objections are numbers,
-- taken as not negative and below 2^31. m_raise and m_drop climb the component tree on fuel; one more
-- than the depth of the object is enough, which the theorems say.
-- The searches in the graph of phases take fuel: more than the rank of the phase where they start is
-- enough in a graph in which a rank falls along the edges, which Phase/Search says of is_before.
-- The searches of the factory take fuel, more than the number of its overrides where these were set by
-- type. The indices of a packer stay below 2^31.
-- A tree numbers all objects; objects that do not exist may stand anywhere in it.
--
-- Not modelled: messages and their text, file names and line numbers, randomization (the code has none),
-- trace modes, waiting on events, and the user's callbacks but for their order of call (objections) and
-- the value that they leave (fields). The parent register of a field is represented by its rights in a
-- map and by its busy mark. The maps above a register map are given, not built: adding registers, memories
-- and submaps is left out. The packing of objects, of real numbers and of four-valued logic, the factory's
-- debug searches, and the pool's searches over its whole table are left out too. The bus
-- operations of a register, the execution of phases and the texts of reports are left out. The other parts
-- of the library (register blocks, memories, printers), and the waits and kills of a sequencer, are not
-- modelled.
pub mod Common
pub mod Glob
pub mod Mam
pub mod Reg
pub mod RegField
pub mod Objection
pub mod RegMap
pub mod Phase
pub mod Dap
pub mod Report
pub mod Resources
pub mod Sequencer
pub mod Factory
pub mod Packer
