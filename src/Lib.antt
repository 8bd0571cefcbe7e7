-- ===== src/Lib.antt =====
-- The core of a music player daemon: the play queue, the playlist that plays it, and the export of
-- samples to DSD devices.
--
-- A client edits the playlist (src/Playlist.hxx), which owns a queue (src/Queue.hxx) of songs and tells
-- the player thread (src/PlayerThread.cxx), through src/PlayerControl.hxx, which song to play and which
-- one to queue next. The player has the decoder fill a pipe (src/MusicPipe.hxx) with chunks, and sends
-- them to the outputs, which export the samples (src/pcm/PcmExport.hxx).
--
-- Song: struct Song of src/Song.hxx, and src/Song.cxx: detached copies, URIs, comparison. Strings are
--   lists of bytes.
-- IdTable: src/IdTable.hxx, the map from ids to positions as a function into options. The search for
--   a free id loops in the source; here it takes fuel, the size of the table, which is enough since
--   the table has four entries for each position.
-- Queue: src/Queue.hxx and src/Queue.cxx. State and Move hold the items, Order the order of playback;
--   Valid is the invariant of the queue with what keeps it, Contents and Songs say where the songs
--   go, Sorted what a shuffle does with priorities. An array is a function from its indices; a loop
--   takes the number of its rounds, computed from the bounds in the source. The random engine
--   is a sequence of numbers that is given, and std::stable_sort an insertion sort.
-- Playlist: src/Playlist.hxx, src/Playlist.cxx, src/PlaylistControl.cxx and src/PlaylistEdit.cxx. State
--   holds the playlist and the choice of the next song, Control the operations of playback, Edit,
--   Moves and Deletes those that change the queue, with what follows on an event of the player, and
--   Options the modes. Valid is the invariant of the playlist with what keeps it. The player is a
--   record of operations on a state of any type, so that a theorem holds whatever the player does
--   and answers; idle events and log messages are left out. An operation gives no result where the
--   source would search an order number that is not there, or index with -1. A pointer to a song of the queue is the id of the item.
-- Pcm: Format is src/AudioFormat.hxx, src/AudioFormat.cxx and src/CheckAudioFormat.cxx; DsdUsb is
--   src/pcm/PcmDsdUsb.cxx, DsdNative src/pcm/PcmDsdNative.cxx, Pack src/pcm/PcmPack.cxx on a little
--   endian host, and Reverse the generic loop of src/util/ByteReverse.cxx, Swaps the rest of it,
--   with the swaps of src/system/ByteOrder.hxx. Export is src/pcm/PcmExport.cxx, which composes
--   them; a buffer holds what it held before where a conversion writes nothing. Source sizes stay
--   below 2 ^ 32.
--   BitReverse is src/util/bit_reverse.c, the table that the decoders of DSD reverse bytes with.
-- Music: src/util/SliceBuffer.hxx as Slices, where a pointer to a slice is its number and Pool and Steps
--   say which slices are live; src/MusicChunk.hxx and src/MusicChunk.cxx as Chunk, src/MusicBuffer.cxx as
--   Buffer, src/MusicPipe.hxx and src/MusicPipe.cxx as Pipe, whose links lead through the buffer. Assertions
--   are compiled in: an operation gives no result where one fails. Owners, Frames and Clear follow
--   the chunks of a pipe back into the buffer. A loop takes as fuel the size of the pipe, and one.
-- Player: src/PlayerThread.cxx, src/PlayerControl.hxx and src/PlayerControl.cxx, with the part of
--   src/DecoderControl.hxx that the player sets. State holds the structures, Decoding the calls of the
--   decoder and of the outputs, Commands ProcessCommand, Loop the rest of the loop of Run, Task the
--   loop of player_task and the client. A turn is the code between two points where the lock is
--   free and the client may act; a command that comes during a turn is taken to come before or
--   behind it. What the decoder thread and the outputs answer is an argument of each turn, so that
--   nothing is assumed of their order. So is whether a
--   pipe gives a chunk, whether that fits the format, and whether all chunks are back in the buffer, which
--   the code asserts. Songs and pipes are numbers. Valid is the invariant with what
--   keeps it, Traces all sequences of steps, Answered how long the client waits, Race a seek at
--   the wrong moment.
-- Icy: Text is the parser of tags of src/IcyMetaDataParser.cxx, where a pointer is the list of the bytes from
--   it to the end; Parser the rest of it, with src/IcyMetaDataParser.hxx, and read_from_buffer of
--   src/input/CurlInputPlugin.cxx, on the bytes of one buffer. Bytes is a parser of single bytes, which the
--   loop is compared with. The fuel is the number of bytes that are left, since each round takes one. The byte
--   behind a block, which is never written, is an argument. Time and memory are left out.
-- Dsd: Stream is decoder_read_full of src/DecoderAPI.cxx and src/decoder/DsdLib.cxx, with
--   src/decoder/DsdLib.hxx; Whole says what they do on a stream that gives the bytes of a file in pieces of
--   any size. Dsf is src/decoder/DsfDecoderPlugin.cxx: the chunks, which Playable is about; Order the order of
--   the samples; Decode the loop of dsf_decode_chunk, with the answers of decoder_data as a list; Streams
--   the whole decoder. The input stream is a record of operations on a state of any type. A read takes as fuel
--   the bytes it is asked for, since an empty read ends it. The offset that the time of a
--   seek comes to is an argument. Floats rounds it to 24 bits, as the source does when it divides by the size
--   of a block, which Rounded is about. The loops of dsf_to_pcm_order take the number of their rounds. The host is little endian. Dsdiff is the
--   part of src/decoder/DsdiffDecoderPlugin.cxx that reads the chunks in front of the samples, with fuel
--   for its rounds, which Props and Endless are about; Disk is a stream for the tests.
-- Prelude: what the modules share: Boolean tests, lists, arrays, the pigeonhole principle, results.
--
-- Lengths, positions, order numbers and ids stay below 2 ^ 31, so that `unsigned` and `int` hold them.
-- Versions wrap at 2 ^ 32 as in the source.
--
-- Not modelled: the decoder and output threads, whose state machines can follow; the times that the player
-- computes as floating point numbers; the decoding of DSDIFF samples and the scan of DSD files for tags; DatabaseModified, AppendFile and AppendURI, which ask the database;
-- SeekCurrent, which computes with floating point numbers; and what is input and output or a library.
pub mod Prelude
pub mod IdTable
pub mod Music
pub mod Icy
pub mod Dsd
pub mod Song
pub mod Queue
pub mod Pcm
pub mod Playlist
pub mod Player
