-- ===== src/Lib.antt =====
-- luafan: event-driven networking for Lua, written in C under src/.
--
-- Parts and files
--   ByteArray, over src/bytearray.h and src/bytearray.c, is the byte buffer below everything else.
--   ByteArray/State is the struct BYTEARRAY; ByteArray/Grow has next_power_of_2,
--   ensure_capacity_optimized and the heap; ByteArray/Write, Read and Mode have one function for each
--   bytearray_ function, named without that prefix (bytearray_mark is set_mark).
--   ByteArray/Script is a client's sequence of calls and the queue that answers the same calls.
--
--   Stream, over src/stream_ffi.c, puts the wire formats of fan.stream on byte arrays: Stream/Add and
--   Stream/Get have one function for each ffi_stream_ function, named without that prefix
--   (stream_mark, stream_reset, stream_empty and stream_package keep a part of it). Stream/Varint is
--   the format of the variable-length integers on lists of bytes, and Stream/Message a sequence of
--   fields that is added and got back.
--
--   StreamLua, over src/stream.c, is the Lua interface of Stream: StreamLua/Calls has one function for
--   each luafan_stream_ function, named lua_ and the operation; StreamLua/Message is a sequence of
--   values with the functions that they go through.
--
--   WebSocket, over src/httpd_websocket.c and its structs in src/httpd_internal.h. WebSocket/EvBuffer
--   is what the code uses of libevent's evbuffer, with laws as libevent documents it.
--   WebSocket/Frame parses and creates frames (parse_frame, create_frame, mask_unmask);
--   WebSocket/Wire is a frame's bytes as the protocol lays them out. WebSocket/Request is struct
--   Request with the frame queue, the cleanup and the flush callbacks; WebSocket/Events has
--   ws_readcb, ws_eventcb and the resumption of the waiting coroutine, which is a function on the
--   request; WebSocket/Accept has the upgrade test and websocket_accept; WebSocket/Api has
--   websocket_send, _ping, _pong, _close, _receive and _state. WebSocket/Life and WebSocket/Steps make
--   the calls, the callbacks and the timer a step relation.
--
--   Config, over src/tcpd_config.c and src/udpd_config.c with their structs in src/tcpd_common.h and
--   src/udpd_common.h, is the settings of an endpoint: Config/Tcp and Config/Udp have the functions of
--   the same names, without those that apply settings to sockets.
--
--   Json, over src/json.c, is the JSON module. Json/Strbuf is strbuf_t; Json/Lua has the Lua values
--   that the encoder walks through, tables behind addresses in a store; Json/Encode is json_encode,
--   with encode_table as encode_contents. Json/Chars, Json/Text and Json/Decode are json_decode, one
--   definition for each function; a position p->idx is kept as the text from there on, and the
--   rounds of the loops of parse_array and parse_object are after_item, after_key and after_field.
--   Json/Api has the other functions. Json/Print is the text of a value, written without the functions
--   of the encoder (Json/Spelled compares the two), Json/Place says what a line and a column are,
--   Json/Utf8 what the bytes of a code point are, and Json/Plain which values a text can stand for.
--
--   ObjectBuf, over src/objectbuf.c, is the packer of Lua values. ObjectBuf/Objects has the values, with
--   tables behind addresses in a store; ObjectBuf/Pack is the packer and its CTX, ObjectBuf/Encode is
--   luafan_objectbuf_encode with a function for each of its parts, and ObjectBuf/Decode is
--   luafan_objectbuf_decode, whose loop that makes the tables is endless for a count of 2 ^ 32 - 1.
--   A map from indices to values is a function, and one from values to indices a list of pairs.
--   ObjectBuf/Readable, Ends and Total follow what is left of the input through decode.
--
--   Fifo, over src/fifo.c, is the named pipes. Fifo/Pipe has the userdata with the log of what is done
--   outside it, and connect; Fifo/Calls has the callbacks of the events, send, send_req and close.
--   Fifo/Steps makes them a step relation, in which the Lua code that a callback runs is steps too.
--
--   EventManager, over src/event_mgr.c, is the main event base with its resolver and its signal
--   events: EventManager/Manager has the static variables and the functions that make, loop on and free
--   them, with a count of the calls of libevent on a base that was freed before. EventManager/Sound is
--   the invariant, EventManager/Running the loop with what its callbacks do, EventManager/Life makes
--   the calls a step relation, and EventManager/Stale follows the resolver that a late call makes.
--
-- Conventions
--   A pointer that may be NULL is an Option. A block of memory is the list of its bytes. A copy past
--   the end of a block stores nothing, and the invariant keeps copies inside. size_t has 64 bits and
--   wraps; the host is little-endian; a double is its 64-bit pattern. The C heap is a record of what
--   it decides: which sizes it grants, and what fresh memory holds. strcasecmp and strcasestr of the C
--   library are written out, in WebSocket/Accept.
--
-- Bounds and fuel
--   Sizes are taken up to 2 ^ 62 bytes, far above any memory. The loops over the groups of a uint32_t
--   take five rounds: 5 * 7 bits hold 32. The loop of ws_readcb takes a round for each byte of the
--   input, and a frame has two bytes at least. strbuf_reserve doubles a capacity at most 64 times.
--   json_decode has three units of fuel for each byte and three more, json_encode one for each table
--   of the store and two more, and both are proved enough. The packer has one for each table and two
--   more, and the loop over the pairs of a packed table one for each byte and one more; both are proved
--   enough. The array part of a table is searched in a round for each entry and one more, and a table
--   has no more keys than entries.
--
--   The counters of the JSON module are of type int. The encoder counts the keys and the length of an
--   array, and its model gives an overflow where one passes INT_MAX. The line, the column and the index
--   of an array in the decoder can only pass it on a text of INT_MAX bytes or more, which the model of
--   json_decode gives no value. The uint32_t counters of decode stay below their counts where each
--   round takes a byte of the input.
--
-- Not modelled
--   Lua's C interface, sockets, libevent, OpenSSL, curl and the MariaDB client, and the modules that
--   only pass calls on to them. The worker threads of the event manager, the HTTP replies,
--   and the connections of TCP and UDP endpoints have no model yet.
pub mod ByteArray
pub mod Common
pub mod Config
pub mod EventManager
pub mod Fifo
pub mod Json
pub mod ObjectBuf
pub mod Stream
pub mod StreamLua
pub mod WebSocket
