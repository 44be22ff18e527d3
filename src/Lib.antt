-- ===== src/Lib.antt =====
-- A model of duckcall, a read-only client for DuckDB's Quack protocol, and what its code
-- guarantees.
--
-- The program is layered. internal/qser reads and writes the framing that every message rides in;
-- wire/ builds the message envelope and its typed bodies on it, and codec/ decodes the bodies that
-- carry results: the type trees, the vectors and the chunks of a PREPARE_RESPONSE or a
-- FETCH_RESPONSE.
--
-- Qser models internal/qser/qser.go. A reader is its record of buffer, offset and sticky error, and
-- a method takes the reader and returns its value with the reader after it (`TryField` is
-- `try_field`, `End` is `end_object`, `Take` is `take_bytes`, the others keep their names). A
-- writer is its buffer, and a method returns the writer after it (`Field` is `put_field` and so
-- on). Qser/Varint.antt has the functions of encoding/binary that the package calls.
-- Wire/Messages.antt models wire/messages.go, a function for each encoder and decoder.
--
-- Codec models codec/. A decoder returns Go's (value, error) pair with the reader after it
-- (Codec/Decode.antt). Codec/Types.antt has the data of codec/logicaltype.go, codec/values.go and
-- codec/errors.go, Codec/TypeTree.antt the decoders of codec/logicaltype.go, Codec/Cells.antt the
-- cells and Codec/Vectors.antt with its children the vectors of codec/chunk.go, Codec/Chunk.antt
-- its chunks, and Codec/Results.antt codec/result.go. decodeType and decodeVector call themselves
-- one level deeper and refuse a depth above 64, so `decode_type` and `decode_vector` recurse on the
-- levels that are left, 65 minus the depth, and `decode_vector` hands the function for the next
-- level to the functions for the kinds of vector. A place where Go's slice indexing would panic is
-- `element`, which gives null there: Codec/Lengths.antt and Codec/ResultChunks.antt are about the
-- lengths that rule this out. Codec/GoTypes.antt says which Go values a column of each type may
-- hold.
--
-- Codectest models codec/codectest/codectest.go, which encodes what codec/ decodes. A function
-- appends to a writer and a panic is none (Codectest/Write.antt); Codectest/TypeWriter.antt has
-- WriteType, Codectest/CellWriter.antt appendCell, Codectest/VectorWriter.antt writeVector and
-- Codectest/Bodies.antt the chunks and result bodies. Codectest/Encodes.antt says that a decoder
-- reads a value from what an encoder wrote, and the files after it show that for each kind of type,
-- cell and vector, up to whole bodies. IsType and IsVector there name the types and values that
-- have the form which the decoders give: the branches for UNION, VARIANT and GEOMETRY values, which
-- are not decoded, are outside it.
--
-- The rest of wire/ is Wire/Config.antt, Wire/Errors.antt, Wire/Retry.antt and Wire/Client.antt, a
-- file each for the Go files of these names. net/http is a parameter: a function from the bytes of
-- a request to what came of it, for the attempts of the handshake one for each attempt. net/url is
-- the scheme that it finds, a context is two tests by attempt. The retry loop takes MaxRetries + 1
-- as fuel, which Wire/Attempts.antt shows to be enough. Conn/Dial.antt models Dial and Query of
-- duckcall.go on these.
--
-- Stream models Result.Chunks of duckcall.go. Stream/Worker.antt is one fetch worker, a step for
-- each access to what the workers share; the server is the list of batches that it still holds, and
-- a fetch pops one and may fail before or after that. Stream/System.antt interleaves any number of
-- workers with the consumer, and with a caller who may cancel the context and close the result at
-- any time.
--
-- Bouncer/Pool.antt models cmd/quackbouncer/pool.go over any type of session. The lock makes each
-- method one step, so what concurrent handlers do to the pool is a list of calls; the outcome of
-- wire.Connect is part of the call, and `put` returns the session that it closes.
--
-- Bouncer/Metrics.antt models the counters of cmd/quackbouncer/metrics.go, and Bouncer/Proxy.antt
-- the handlers of cmd/quackbouncer/proxy.go, one function each. A session is an address, with a
-- client of Wire/Client.antt at each address; the token table, the text that an error prints, what
-- a dial returns and the id that rand.Text draws are arguments. Bouncer/Places.antt has the
-- critical sections of the handlers as steps, which any number of handlers interleave, and
-- Bouncer/Handlers.antt takes each handler apart into them. A request that is being forwarded while
-- its connection is disconnected still uses the session, which is then in the pool: no step stands
-- for that use.
--
-- Codec/Text.antt models the String methods of codec/values.go, and Codec/TypeText.antt that of
-- LogicalType, where the dereference of a nil child is none and a type inside a STRUCT or MAP
-- prints as package fmt does, panics included. Driver models driver/interpolate.go:
-- Driver/Literal.antt the literals, where strconv's text of a finite float64 and package time's
-- text of a moment are parameters, and Driver/Interpolate.antt the loop, on the rest of the query
-- in place of Go's index, with the length of the query as fuel, which Driver/Equivalence.antt shows
-- to be enough. Driver/Lexer.antt tells the placeholders byte by byte, as an automaton, which is
-- the reference for that loop. Driver/Dsn.antt models driver/dsn.go, on the parts of a DSN that
-- net/url finds, with the parameters in whatever order Go walks the map. Driver/Session.antt models
-- driver/driver.go on Conn/Dial.antt. Driver/Rows.antt models Next of driver/rows.go: what
-- iter.Pull2 gives is a list of chunks and errors, and the conversion of a cell is a parameter,
-- which Driver/Values.antt has as `to_driver_value`, with its JSON.
--
-- Bytes are native numbers below 256, strings are lists of bytes, a uint64 is a number below 2 ^ 64
-- and an int64 its two's complement pattern, also in the cells of a result; floats are their bits.
-- The writer's two varint loops take fuel 10, which Qser/Bytes.antt shows to be enough for every
-- 64-bit value; the reader's loops end by their own bound of ten bytes.
--
-- Not modelled: the texts of errors; the layouts of package time and the text that strconv gives a
-- float64; the flags, the listener and the metrics page of cmd/quackbouncer, which are input and
-- output; and the fake server of internal/quacktest, which only tests use.
pub mod Base
pub mod Qser
pub mod Wire
pub mod Codec
pub mod Bouncer
pub mod Conn
pub mod Stream
pub mod Driver
pub mod Codectest
