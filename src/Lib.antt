-- ===== src/Lib.antt =====
-- Verification of the Python tools of the repository: the downloads, the LayerNorm rewrite and the
-- manifest of the model preparation (tools/model-prep/prepare.py, normalize.py and record.py), the
-- release packaging (tools/release/package.py), the verification of the exported model
-- (tools/model-prep/verify.py), the build of the macOS package (tools/release/build-macos.py), the
-- acceptance of a deployment on macOS (tools/release/smoke-macos.py) and of the built image
-- (docs/validation/docker-smoke.py), and the benchmark (docs/validation/benchmark.py).
--
-- The parts and how they interact. The model preparation downloads a pinned checkpoint and exports
-- an ONNX graph, in which normalize.py replaces each LayerNormalization by elementary nodes;
-- verify.py compares the export with the reference and writes validation.json, which record.py reads;
-- record.py writes the manifest of a validated bundle, by which package.py verifies the bundle
-- before it packs it, and whose digest names the model. package.py checks that the archives of a
-- release name this model and this version, and writes the metadata and checksums that the
-- installers read. smoke-macos.py installs, updates and interrupts a deployment by the installer's
-- script, with candidates that it makes from a release. docker-smoke.py runs the image in containers
-- and compares its answers with the official ones; benchmark.py takes its containers, requests and answer checks, measures the service
-- with several concurrent clients and reports the figures.
--
-- Base holds the shared names: equality as in Python (Base.Equality), lists (Base.Lists), dicts in
-- insertion order (Base.Dict), sorted lists (Base.Sorting), calls that may raise (Base.Raises), str
-- (Base.Text), integers (Base.Int), values of JSON with Python's operations on them (Base.Json), and
-- calls with a state (Base.Action). Numbers of JSON are exact, in units of which `unit` make one, so
-- rounding of floats is not modelled.
--
-- Normalize, for tools/model-prep/normalize.py. `layer_norm_nodes`, `expand_layer_norm` and
-- `rewrite` are the source's functions; `expand_nodes` is the loop. A graph is the part that the
-- tool reads and writes: nodes with the attributes it looks at, and initializers. Tensors and floats
-- are opaque. The onnx package is a parameter: its checker in `rewrite`, and in Normalize.Meaning a
-- runtime that runs the operators; the hypothesis FollowsSpecification is the function body that the
-- ONNX specification gives for LayerNormalization, read over exact tensors, so rounding is not
-- modelled.
--
-- Prepare, for `download`, `checkpoint_files`, `source_files` and the script's end in
-- tools/model-prep/prepare.py. The state is the files by path. A request is refused, breaks off after
-- a part with an exception, is cut short without one, which the reads do not tell from the end, or is
-- complete: `fetch`, with the hashes and the parser of the hub's metadata, comes from the record Host
-- of Prepare. Directories are not kept.
--
-- Record, for `record` in tools/model-prep/record.py, which is `record_bundle`: `accept` are its
-- checks, `assemble` makes the dict that is written. The state is the files by path; JSON texts,
-- hashes and the listings of directories come from the record Host. Record.Provenance joins it with
-- the verification of Release.Model.
--
-- Release, for tools/release/package.py. The output directory is the
-- state, a dict of contents by name; the repository is read only. Release.Metadata has the checks
-- and the lines of release.env, Release.Publish the writes. SHA-256, sizes, encodings and the
-- members of archives come from the record Host. The three platforms share one function, with the
-- differences in the record Platform. Release.Model is the verification at the head of `pack_model`,
-- Release.Pack the archive, whose bytes are a function of its members, and the actions of `main`.
-- `decimal` runs on fuel one above the number, which is always enough.
--
-- Smoke, for docs/validation/docker-smoke.py. Processes, the network, the clock, the parser of JSON
-- and the files come from the records Host and Machine, the threads of `stop_scenarios` from the
-- record Pool; `W` is the state of everything outside. Smoke.Service has the container and the
-- service in it, Smoke.Answer `check_answer`, Smoke.Acceptance `fixtures`, the cases of `failures`
-- and `unreadable`, Smoke.Inventory `runtime_inventory`, Smoke.Threads `stop_scenarios`, Smoke.Main
-- `failures` and `main`; Smoke.Loaded, Smoke.Stopped and Smoke.Accepted say what it means that `stop_scenarios` and
-- `main` raise nothing. A `finally` is `always` of Base.Action. What is printed is left out. The
-- loop of `wait_for` runs on fuel, twenty rounds for each second and one more, since a round sleeps
-- for 50 milliseconds.
--
-- Deploy, for tools/release/smoke-macos.py. Everything outside comes from the record Host; `W` is its
-- state, and what the service does between two calls is in the calls of the host. Deploy.Fields has
-- `fields` and the lines of release.env, Deploy.Candidate `sha` and `make_candidate`, Deploy.Instance
-- `wait_for` and the class Deployment, whose `processes` stand beside the world in the record
-- Deploying, Deploy.Demands what the checks read and assert, Deploy.Checks `check_running`,
-- `check_updates` and `check_interruption`, Deploy.Main `main`; Deploy.Undisturbed, Deploy.Updates and
-- Deploy.Preserved say what it means that the three checks return. The binds of Base.Steps stay shut in
-- proofs, and `Runs call s a t` says that the call returns `a` from `s` and leaves `t`. The loop of
-- `wait_for` runs on fuel, ten rounds for each second and one more, since a round sleeps for a tenth
-- of a second. Of two paths, `a / b` is the text with one stroke between them.
--
-- Build, for tools/release/build-macos.py: the commands and the files come from the record Host of
-- Build, the copies, the environment, JSON and the archive from the record Builder of Build.Licenses.
-- Build.Words takes texts apart as the patterns and splits of the source do, Build.Macho has
-- `inspect_macho`, Build.Catalog `catalog`, Build.Licenses `licenses`, Build.Assemble `assemble`,
-- Build.Main `main`. The owner and the times of an archive's members are left out. Build.Inspected,
-- Build.Cataloged, Build.Assembled and Build.Built say what it means that `inspect_macho`, `catalog`,
-- `assemble` and `main` return.
--
-- Verify, for tools/model-prep/verify.py and `load_reference` of tools/model-prep/export.py. The state
-- is the files by path; `examine` is what stands between the removal of validation.json and its write,
-- and changes nothing. The record Tools has ONNX, the runtime, the tokenizer and the tensors: graphs
-- and sessions are the parts that the code looks at. Two parts of verify.py itself are in it too:
-- `compare`, which gives a record or raises, and `minimum`, the smallest batch that is compared first.
-- Verify.Bundle has `require_bundle` and `inspect_graph`, Verify.Opening `session` and
-- `load_reference`, Verify.Cases `cases`, Verify.Main `verify`, Verify.Outcome its two ends.
--
-- Bench, for docs/validation/benchmark.py. Times are whole nanoseconds where the source has floats,
-- so `60 * second` is a minute, and a quotient is kept as its numbers. In Bench.Load the workers
-- share the counters under one lock: a critical section is one step, a call of `invoke` ends in a
-- row or raises, time passes between steps, and any order of steps is a run. A returned row may be any
-- that ends by now, so the steps allow more than the program does. An outcome is any JSON value, as
-- the error code of a server may be. Bench.Summary has `summarize`, Bench.Invoke `invoke`,
-- Bench.Observe `observe`, Bench.Group `group`, Bench.Configuration `inventory` and `configuration`, Bench.Failure `record_failure`, Bench.Run the
-- loop of `run` and Bench.Start `run` itself. They work on a Station: the files of the output
-- directory beside the world. What the threads of `group` give, the rows of `load` and the samples,
-- is the parameter `measure`; its hypothesis IsLoad says that the rows are those of a run of
-- Bench.Load in which all workers have returned. A write to an existing directory succeeds. The
-- warm-up runs on fuel that counts the nanoseconds of ten seconds.
--
-- Not modelled: the Rust service (src/), `compare` and the smallest batch of verify.py, the export and
-- the fixtures of tools/model-prep, the installers of the platforms and their tests,
-- `sample_resources` of the benchmark, and the parsing of command lines.
pub mod Base
pub mod Bench
pub mod Build
pub mod Deploy
pub mod Normalize
pub mod Prepare
pub mod Record
pub mod Release
pub mod Smoke
pub mod Verify
