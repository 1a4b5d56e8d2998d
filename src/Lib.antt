-- ===== src/Lib.antt =====
-- websh is a bash-like shell for the browser. This library models shell/sed, its stream editor, from
-- the script's text to the bytes that are written; the line editor of its prompt (shell/editor.go,
-- shell/cells.go), from the terminal's runes to the calls of its callbacks; the known hosts and the
-- prompts of its ssh client, with its command line and its quoting (shell/ssh); its terminal on
-- another machine (shell/pty); its text editor and its pager (shell/edit.go, shell/pager.go); its
-- applets, its prompt and its completion (shell/applets.go, shell/applets2.go, shell/sedapplet.go,
-- shell/prompt.go, shell/complete.go); the terminal of a session in the page (web/session.go); and
-- the filter that takes the host's events out of a program's input, with the sequences that a program
-- writes (progressive).
--
-- The parts and how they interact:
--   Sed/Types       the data of shell/sed/parse.go and sed.go: addresses, parts of a replacement,
--                   commands.
--   Sed/Translate   shell/sed/regex.go: `translate` and `bracket`, from a sed expression to RE2 syntax.
--   Sed/Parse       shell/sed/parse.go: `parse`. Its children have the methods of `parser`: Cursor
--                   (`skipSpace`, `number`, `delimited`, `toEnd`, `endCommand`), Addresses
--                   (`address`), Replacement (`parseReplacement`), Arguments (`command`, `text`,
--                   `substitute`, `translit`).
--   Sed/Host        what the code calls and does not implement: regexp, unicode, the callbacks of
--                   `Options`, the writers.
--   Sed/Input       shell/sed/sed.go: `input`, lines of several readers with one line of lookahead.
--   Sed/Output      `output`, which remembers a missing final newline.
--   Sed/Ranges      `matchRegex`, `matchOne`, `selected`: the addresses, and the state of ranges.
--   Sed/Substitute  `expand`, and the loop of `substitute` over the matches.
--   Sed/State       `Program` and `state`, `autoprint`, `flushAppends`, `writeFile`.
--   Sed/Commands    the `switch c.name` of `exec`.
--   Sed/Exec        `exec`, one run of the script over a pattern space.
--   Sed/Run         `Compile`, `Run` and the cycle.
--   Sed/Applet      shell/sedapplet.go: `parseSedArgs`; Sed/Applet/Files: `runSed`, which compiles the
--                   scripts and runs them over the files, and `sedBackup`.
-- `Compile` calls `parse`, which translates and compiles the expressions; `Run` reads a line, has
-- `exec` work the commands over it, each of which `selected` lets through, and prints. The modules
-- below a part hold its lemmas; Sed/Samples and Sed/Witnesses run the code on concrete inputs.
--
--   Editor/Cells    shell/cells.go: `promptCells`, `skipEscape` as states of a scan, `advance`,
--                   `moveCursor`.
--   Editor/State    shell/editor.go: `LineEditor`, `Reset`, the history, `layout`, `settle`, `tail`,
--                   `refresh`, `change`, `moveTo`.
--   Editor/Keys     `insert`, the edits of `Input`, `handleCSI`.
--   Editor/Input    `completeWord`, and `Input`: each rune goes through `settle` and the escape state
--                   to a key, which changes the line and draws it through `change` or `moveTo`.
-- The line editor calls neither sed nor the other applets: the shell between them is not modelled.
--
--   Ssh/Library     what shell/ssh calls and does not implement, as a record of functions.
--   Ssh/Tty         shell/ssh/tty.go: `print`, `readLine`, `password`, `yesNo`.
--   Ssh/Patterns    shell/ssh/knownhosts.go: `globMatch`, `patternMatch`, `hostsMatch`.
--   Ssh/KnownHosts  `loadKnownHosts`, `lookup`, `algorithms`, `add`, `hostKeyCheck`, which looks the host
--                   up by its patterns and asks through `yesNo`.
--   Ssh/Args        shell/ssh/applet.go: `parseArgs`; `WispURL` of shell/helpers.go.
--   Ssh/Mosh        shell/ssh/mosh.go: `shellQuote`, `MoshServerCommand`, `ParseMoshConnect`; the bytes
--                   of `forwardKeys`, and `exitStatus`, of shell/ssh/session.go.
--   Pty/Escape      shell/pty/protocol.go: `escape` and its `filter`.
--   Pty/Protocol    `ParseControl`, `WebSocketURL`; `retryWait` of retry.go; the messages that
--                   `Handler` takes.
--   Pty/Connection  shell/pty/applet_js.go: a round of `connect`, which filters the keys and sends
--                   them or lets them wait, and what `run` makes of the result.
--   Edit/Buffer     shell/edit.go: `editorState`, the keys that change the text, `save`.
--   Edit/Screen     `clamp` and `draw`.
--   Edit/Keys       the switch on a byte, and the loop, whose rounds end in `clamp` and `draw`.
--   Pager           shell/pager.go: `less`, its keys, what it draws, and its loop.
--   Applets         shell/applets.go: the flags, counts and lines that the applets share (`parseFlags`,
--                   `countArgs`, `readLines`). Its children have the applets of applets.go and applets2.go:
--                   Lines (head, tail, tac, nl, uniq, sort, grep), Cut, Text (wc, tr, xargs, basename,
--                   dirname), Numbers (seq, xxd, base64, the hashes), Files (mkdir, rmdir, rm, mv, touch,
--                   chmod), Files/Trees (cp), Files/Listing (cat, ls, tree, stat), Files/Find (find, du).
--   Web             web/session.go: `cookedInput`, `echoCtl`, and the writer `termWriter`.
--   Prompt          shell/prompt.go: `Var`, `PS1`, `expandPrompt`, `promptVarName`.
--   Complete        shell/complete.go: `Complete` and `pathPrograms`. It is what `Complete` of the line
--                   editor is set to, and the two meet in Complete/Prefixes.
--   Progressive/Filter  progressive/events.go: `Read`, `take`, `deliver`, and `terminator` of
--                   progressive/progressive.go. The source is a list of what its reads give; the channel
--                   is what was sent to it, since nothing receives from it here.
--   Progressive/Probe  `scan`, `cutString` and `cutDA1` of progressive/progressive.go.
--   Progressive/Shipping  the sequences of ship.go, font.go, media.go, mirror.go and page.go.
--   Progressive/Sequences  `EventSeq`, for the JSON of an event.
--
-- How the code is written here. A string is the list of its bytes. The position of a parser is the
-- list of the bytes that remain, with the length of the script to name a position in an error. A
-- compiled expression is the RE2 text that it was compiled from. `int` is 64 bits wide and wraps
-- around (Base/Int); lines are counted in natural numbers. A reader is the bytes that it gives until
-- its end or its error, as `advance` treats the two alike. A writer is the bytes that it was
-- given. A pointer to a command is its index in the script, so the range state of a command is stored back.
--
-- The line editor works on runes. The calls of its callbacks are events, in order; `Prompt`,
-- `Cols`, `Complete` and `runewidth.RuneWidth` are the record Terminal, and give the same answers
-- throughout an input. `Submit` and `Interrupt` call nothing of the editor in the model. A nil
-- callback is one that does nothing; for `Prompt` and `Complete` nil is `none`.
--
-- The prompts of ssh read a list of bytes with an end or an error behind it. What `hostKeyCheck`
-- prints is a `Notice` with the values in its text. The file of the known hosts is what a read gives,
-- and a function for a write. A round of `connect` takes what its `select` has come to: the end of
-- the context, a tick, keys, or the events of the queue, of which any order may come; what
-- `readyState` and `Size` say stands beside it, and may change from round to round. In the text editor
-- `cx` and `cy` are natural numbers between rounds; where a key may leave one below zero, `clamp`
-- is given an integer, as `clampTop` of the pager is. The terminal's size is one throughout, as in the
-- code, and a pair of natural numbers. The pager reads bytes and takes differences as Edit does.
--
-- An applet is a function of its arguments and of what it reads, to its exit code, its output and its
-- complaints. A slice out of range is `none`, and so is a panic of `runSed`. The applets that change files thread the state of a file
-- system, which is a record of calls (Fs); those that only read take what the calls say. What prints
-- while it reads prints a file as a whole. `sort.Strings` and `sort.SliceStable` are one stable
-- insertion, since equal strings cannot be told apart. Base/Paths has Go's path/filepath on slashes.
-- regexp, strings.Fields and TrimSpace, path.Match, filepath.Rel, afero.Walk, base64 and the digests
-- are parameters, as are JSON, the interpreter's variables, the host's name and the clock for the prompt.
--
-- Fuel. The loop of `parse` has one round for each byte and one more, since a round takes at least
-- one byte. `exec` and the cycle may run forever on scripts that loop, so `exec_from` and `run_loop`
-- take fuel and give `none` where it runs out. A round of `exec` whose jumps lead forward goes forward
-- in the script, so its length and one more is chosen there; a cycle of a script without commands
-- reads a line, so the number of lines and one more is chosen there. `yesNo` asks again for each line
-- that is no answer, and a line takes a byte. A round of the text editor takes a byte, so the length of
-- its input is fuel enough, and so it is for the pager. `take` goes on behind an event, so the length
-- of what it is given is enough. `seq` may run for ever, and takes fuel; `cp -r` and `tree` take the
-- depth to which they go. `cutDA1` and the chunks of a sequence have a round for each byte, and need
-- fewer. `dump` has a round for each byte, of which it needs one in sixteen.
--
-- Not modelled: the sockets, channels and processes of ssh and pty; raw mode, the alternate screen
-- and the context's end in the text editor and the pager; and the rest of the repository: mosh, the
-- shell around the interpreter, the applets that only print a text or the time, the console, the rest
-- of web and progressive, the JavaScript bindings and the vendored libraries. A 32-bit `int`, as TinyGo has for wasm, is not modelled.
pub mod Base
pub mod Sed
pub mod Editor
pub mod Ssh
pub mod Pty
pub mod Edit
pub mod Progressive
pub mod Pager
pub mod Applets
pub mod Prompt
pub mod Complete
pub mod Web
