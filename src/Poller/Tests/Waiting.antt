-- ===== src/Poller/Tests/Waiting.antt =====
-- bitcoind has verified half of the chain.
use revaultd.Prelude.{
  ℕ, ◌+◌, ◌≡◌, refl, true, false, leb, ltb, some, none, [], ok, err, if◌then◌else◌, arith, ap,
  subst,
}
use revaultd.Fault.{server}
use revaultd.Status.{active}
use revaultd.Bitcoind.Wallets.{regtest, Node, ChainInfo}
use revaultd.Poller.Main.{Float, Progress, Round, is_synced, roundup_progress, poller_main}
use revaultd.Poller.Main.Waits.{IsSame, NeverSynced, poller_main-waits}
use revaultd.Poller.Tests.{world, manager, node}
use revaultd.Poller.Tests.Startup.{setup}

-- Progress in hundred-thousandths.
abbrev float : Float ℕ
float = record {
  rounded = λ x. x + 1;
  hundred_thousandths = λ n. n;
  one = 100_000;
  as_u32 = λ x. if leb 100_000 x then 1 else 0;
  is_below_hundredth = λ x. ltb x 1000;
}

abbrev half_way : ChainInfo ℕ
half_way = record {
  headers = some 800;
  blocks = some 300;
  initialblockdownload = some true;
  verificationprogress = some 50_000;
  chain = some "regtest";
}

abbrev slow_node : Node ℕ
slow_node = record {
  getblockchaininfo = λ n. ok half_way;
  createwallet = λ n path. err server;
  loadwallet = λ n path. err server;
  unloadwallet = λ n path. err server;
  listwallets = λ n. err server;
  getdescriptorinfo = λ n address. err server;
  importdescriptors = λ n imports. err server;
}

slow_node-NeverSynced : NeverSynced float slow_node
unfolding roundup_progress
slow_node-NeverSynced n info progress e h =
    let same : info ≡ half_way = cc in
    let half : 50_000 ≡ progress =
      ground (arith, h, ap (λ (c : ChainInfo ℕ). c.verificationprogress) same) in
    subst (λ x. is_synced float slow_node (roundup_progress float slow_node x) ≡ false) half refl

abbrev round : ℕ → Round
round n = record {
  is_shutdown = leb 4 n;
  now = n + 60;
  watchonly = record {
    wallet_path = some 1;
    is_there = false;
    clock = some 100;
    deposit_addresses = [];
    unvault_address = λ i. i;
  };
}

abbrev not_started : Progress ℕ
not_started = record { sync_progress = 0; sync_waittime = none; last_poll = none }

poller_main-waits_example :
    IsSame
      (world active)
      (poller_main float slow_node setup manager node regtest 30 round 9 0 not_started
        (world active)).1
poller_main-waits_example =
    poller_main-waits float slow_node slow_node-NeverSynced setup manager node regtest 30 round 9 0
      not_started (world active) refl
