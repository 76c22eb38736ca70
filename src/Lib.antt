-- ===== src/Lib.antt =====
-- RoarAudio, the sound server roard and its libraries.
--
-- What is modelled, by file:
--   Status, Prelude   what the parts share: the int of a call (0 or -1), lists over the native
--                     numbers, Boolean tests, laws of the bitwise operators, take and drop
--   Memory            blocks of memory as lists of bytes, memcpy, and size_t with its wrap-around
--   Stack             libroar/stack.c: struct roar_stack and roar_stack_new, _newalloc, _free,
--                     _set_free, _set_flag, _push, _pop, _get_cur
--   Vio               libroar/vio.c: struct roar_vio_calls, roar_vio_read and roar_vio_write. The
--                     backend behind it is a parameter; Writer and Reader say what one that takes
--                     and gives all that it is asked for promises
--   Vio.BufferStore   libroar/vio_buffer_store.c: a backend that keeps what is written in a chain of
--                     buffers and reads from another
--   Vio.Retry         roar_vio_re_read, which reads until it has all bytes
--   Proto             libroar/proto.c: struct roar_message, roar_vsend_message and
--                     roar_vrecv_message. A message goes to a vio backend as a header and a body
--   Buffer            libroar/buffer.c: struct roar_buffer and the functions on a single buffer
--   Buffer.Ring       the ring of bytes: roar_buffer_ring_new, _ring_read, _ring_write
--   Buffer.Chain      buffers linked through `next`, on an explicit heap: roar_buffer_add,
--                     _delete, _free, _shift_out, _ring_stats
--   Meta              roard/meta.c: the sixteen slots of meta data of a stream, and stream_meta_set,
--                     _add, _get, _list and _clear on the table g_streams
--   Meta.Finalize     stream_meta_finalize, which gathers the meta data of the input streams in
--                     each output stream
--   Pcm               libroardsp/mixer.c: roar_mix_pcm, and libroardsp/midside.c: roar_conv_s2ms_8,
--                     _16 and roar_conv_ms2s_8, _16. A sample is an integer of Prelude.Int
--   Pcm.Amp           libroardsp/amp.c: roar_amp_pcm and its loops, and need_vol_change of
--                     roard/mixer.c
--   Interleave        libroardsp/interleave.c: struct roar_interleave, roar_interl_init,
--                     roar_interl_encode_ext and roar_interl_decode_ext. The pointers into the
--                     channels are a function from the channel to the bytes it leads to
--   Convert           libroardsp/convert.c: the conversions between sizes, signs (Bits), byte orders
--                     (Endian) and numbers of channels (Chans), on one block of bytes in which the
--                     input and the output may overlap, and roar_conv (Chain); Loops and Undo carry the
--                     proofs
--   Channels          libroardsp/channels.c: roardsp_chanmap_calc and roardsp_chanmap_mappcm, which
--                     move the channels of each frame; Names has the names of channels, Orders
--                     roardsp_chanlist_init
--   Text              C strings, strcmp, strcasecmp and atoi, and tables of names
--   Audio             libroar/stream.c: struct roar_stream and struct roar_audio_info,
--                     roar_stream_s2m and roar_stream_m2s, which put a stream in a message and take
--                     it out, the sizes of a format, roar_profile2info and roar_profiles_list
--   Audio.Names       roar_dir2str, roar_str2dir and the like for codecs and roles
--   Keyval            libroar/keyval.c: roar_keyval_split, which takes a string apart in place, and
--                     roar_keyval_lookup. A pointer into the string is its offset
--   Notify            libroar/notify.c: the table of subscribers, roar_notify_core_new, _subscribe,
--                     _unsubscribe and _emit, whose result is the list of the calls that it makes
--   Nnode             libroar/nnode.c: struct roar_nnode, roar_nnode_to_blob, _from_blob, _cmp
--   Client            roard/clients.c: the table g_clients, clients_new, _close, _block and the
--                     setters, and client_stream_add, _delete and _move, which keep the slots of the
--                     clients in step with the owners in g_streams (roard/streams.c)
--   Lifecycle         streams_new and streams_delete of roard/streams.c and clients_delete of
--                     roard/clients.c, on the same tables: a stream that ends takes the streams
--                     bound to it and the client that it carries with it, and a client its streams;
--                     a virtual stream may take its parent, by cf_au_ctl and cf_wave_ctl, and a
--                     primary one the server, by clean_quit of roard/roard.c
--   Command           roard/commands.c: g_commands and command_exec. A handler is a name; what
--                     command_exec gives is the handler that it calls
--
-- A function that updates what a pointer leads to takes the value and returns the new one beside
-- its int; a NULL pointer is `none`. Buffers that are linked stand on a heap, because they are
-- shared and released. A call that can fail outside the program (an allocation, a transfer of a
-- backend) is an argument, and every theorem holds for all of its answers or names the one it needs.
--
-- Bounds and fuel. A size_t is a number below 2 ^ 64, and its additions and subtractions wrap; a
-- block of memory is taken to be shorter than 2 ^ 62 bytes where a theorem says so, so that sums
-- of two sizes do not wrap. A message's numbers are taken to fit their fields in the header. The
-- loops over a chain of buffers run on fuel, a round for each struct and one for NULL, and the
-- theorems on chains say that more fuel than structs is enough. streams_delete and clients_delete,
-- which call each other, run on fuel, one round for each call that is entered: every second call
-- finds one open stream less, so that 130 rounds are enough for the 64 places of the table.
--
-- Not modelled: what a system call, a sound device or a codec library does; the debug output; the
-- command line tools (roarclients), the compatibility libraries for other sound systems, the
-- plugins for players, and of the daemon (roard) all but its stream meta data, its tables of clients and
-- streams, its commands and need_vol_change. client_stream_delete and client_stream_move take
-- clients_delete, which stands in Lifecycle, as an argument. What streams_delete closes and frees
-- besides the struct (buffers, drivers, filters, names), what clean_quit frees besides the streams and
-- clients, the notifications, and what the handlers of the commands do are left out.
-- Of the sample processing (libroardsp) the filters, the conversion of rates and the codecs are not
-- modelled, since they compute with floating point numbers or call other libraries.
pub mod Prelude
pub mod Status
pub mod Stack
pub mod Memory
pub mod Buffer
pub mod Meta
pub mod Vio
pub mod Proto
pub mod Pcm
pub mod Nnode
pub mod Text
pub mod Audio
pub mod Client
pub mod Lifecycle
pub mod Command
pub mod Convert
pub mod Channels
pub mod Keyval
pub mod Interleave
pub mod Notify
