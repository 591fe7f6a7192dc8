-- ===== src/Lib.antt =====
-- A verification library for VitaMTP, the library that talks to a PlayStation Vita over the Picture
-- Transfer Protocol and its media extension (PTP, MTP), and for OpenCMA, the content manager on top
-- of it.
--
-- The parts of the program, in src. ptp-pack.c, which ptp.c includes, turns the datasets of the
-- protocol into bytes and back. ptp.c runs transactions (a request, a data phase, a response) over
-- the transport functions in `PTPParams`, which usb.c or wireless.c provide, and keeps a cache of
-- the objects of the device. vitamtp.c adds the operations of the Vita, datautils.c its XML, and
-- device.c finds devices. opencma.c, database.c and utilities.c answer the events of the Vita from
-- a database of the files on the host.
--
-- Which file models what.
--   Base: the shared names, tests on numbers, lists, options and integers.
--   Bytes: src/ptp-pack.c, lines 7 to 95, `htod16ap` to `dtoh64ap`, over the accessors of
--     m4/byteorder.m4. A buffer is the list of its bytes, and an access outside of it is `none`.
--     Bytes.Layout and Bytes.Words have the laws of such buffers.
--   Pack.Params: the fields of `PTPParams` that the packing functions read. `iconv` is a parameter,
--     a function from the bytes and the room to the bytes that it writes, or to its failure. The
--     byte order of the host is a field too, since C does not hold it in a variable.
--   Pack.Strings: `ptp_unpack_string`, `ucs2strlen`, `ptp_pack_string` and
--     `ptp_get_packed_stringcopy`. A `char` is signed, as on the hosts that the program is built
--     for.
--   Pack.Arrays: `ptp_unpack_uint32_t_array`, `ptp_unpack_uint16_t_array` and
--     `ptp_pack_uint32_t_array`. What `malloc` returns is a parameter with any contents.
--   Pack.Times and Pack.ObjectInfo: `ptp_unpack_PTPTIME`, `ptp_pack_OI` and `ptp_unpack_OI`.
--     `mktime` is a parameter. `Keywords`, which neither function touches, is left out.
--   Pack.Values: `PTPPropertyValue`, `ptp_pack_DPV` and `ptp_unpack_DPV` of src/ptp-pack.c. A
--     number is held by its bit pattern.
--   Cache: `ptp_object_find_or_insert` of src/ptp.c. The cache is the list of its objects, and the
--     returned pointer an index. Cache.Reference has the linear insertion that it is compared with.
--     Cache.Removal has `ptp_object_find` and `ptp_remove_object_from_cache`; `bsearch` is a
--     parameter that does what the C library documents.
--   Database: the objects and the database of src/database.c and src/opencma.h, as the array of
--     lists that its functions walk over. Database.DataType, Database.DirType and Database.Entries
--     have the constants, the objects that `addToDatabase` makes and those of `initDatabase`;
--     Database.Operations `initDatabase`, `addToDatabase`, `ohfiToObject`, `filterObjects` and what
--     these call; Database.Remove `removeFromDatabase`; Database.Rename `renameRootEntry`, with
--     `strreplace` of src/utilities.c. The mutex is recursive and held throughout each operation,
--     so each is one step. A pointer to an object is its list and its place. Freed objects are no
--     longer in a list; a list that would keep one is a fault. Database.Remove.Sweep has the
--     one-pass description of a removal and what a valid list is, Database.Remove.Below the
--     description by chains of parents, and Database.Valid what a valid database is; Database.Reach
--     has the databases that `initDatabase` and `addToDatabase` make.
--   Transaction: `ptp_transaction_new` of src/ptp.c over a record of transport functions, which
--     carry the transport's state; the null pointers that it tests for are left out.
--     Transaction.Memory: the data handler over memory and `ptp_transaction`. What `realloc`
--     returns is a parameter.
--   Pack.PropertyList: `ptp_pack_OPL` and `ptp_unpack_OPL` of src/ptp-pack.c, Pack.Descriptions:
--     `ptp_unpack_DPD` and `ptp_unpack_OPD`, Pack.DeviceInfo: `ptp_unpack_DI`, Pack.Storage:
--     `ptp_unpack_SI`, `ptp_unpack_SIDs` and `ptp_unpack_OH`. `qsort` is a parameter, and so is
--     whether `malloc` gets memory where the source tests for it.
--   Vita: src/vitamtp.c, over `VitaMTP_SendData` and `VitaMTP_GetData` of src/device.c. A device is
--     the functions of its transport, with what does not change; a link is the session and the
--     state of the transport, which each operation takes and leaves. What an operation fills in is
--     a value of its result, `none` where it fills in nothing. The functions of src/datautils.c
--     that make and read XML are parameters. Vita.Requests, Vita.Sends and Vita.Gets have the
--     operations that send no data, that send and that get data; Vita.Objects those on whole
--     objects, over the operations of src/ptp.c in Vita.Objects.Operations. Vita.Exchange says what
--     an exchange that succeeds is.
--   Bytes.Arrays: arrays of 32-bit words in the byte order of the host, which vitamtp.c copies.
--   Wireless: src/wireless.c over the socket functions of the operating system, which are a
--     parameter with a state of its own, and so is whether `malloc` gets memory for a packet.
--     Wireless.Stream reads and writes packets; Wireless.Commands has the transport functions
--     `ptp_ptpip_sendreq` to `ptp_ptpip_getresp` and puts them into the record that Transaction
--     runs over. Wireless.Commands.Data and Wireless.Commands.Packets are about the packets of the
--     data, of requests and of responses, Wireless.Commands.Whole about a whole transaction,
--     Wireless.Commands.Sends and Wireless.Commands.RoundTrip about sending data and getting it at
--     the other end. Wireless.Connect has `VitaMTP_PTPIP_Connect` with its four packets, the
--     events, `ptp_opensession` and `VitaMTP_Data_Connect`. Wireless.Pairing is
--     `VitaMTP_Get_Wireless_Device` as a machine, whose steps are what happens on its sockets, and
--     Wireless.Text what `sscanf` and `strtok` make of the requests.
--   Text: what Wireless.Text and Database.Rename share on texts.
--
-- Bounds and fuel. Numbers are natural numbers, and the wrap of a C type is written out where a
-- value may pass it. The search of the cache runs on as many rounds as there are objects, which are
-- enough: each round narrows a range of three objects or more. `removeFromDatabase` takes three
-- rounds for an object at most, `renameRootEntry` two, and the loop for a response one for a reply:
-- a device may keep it going for ever. Loops over a buffer recur on the rounds left. A loop around
-- `recv` takes a round for a byte at most, and one more to end; the loop for the packets of a data
-- phase and the one for events take one for a packet, and a device may keep them going.
--
-- Not modelled: memory that is freed, and failures of `malloc`, except where a parameter says
-- whether it succeeds, which is so for property values and lists, the cache, what is read from a
-- dataset, and the packets of wireless.c; where `VitaMTP_Data_Connect`, `ptp_get_packed_stringcopy`
-- and the memory handlers test for memory, it is taken to be there; in wireless.c the broadcasts,
-- the set-up of the listening socket and the code for Windows; the rest of the files named above,
-- and the vendor extensions of ptp.c for other cameras.
pub mod Base
pub mod Bytes
pub mod Cache
pub mod Database
pub mod Pack
pub mod Text
pub mod Transaction
pub mod Vita
pub mod Wireless
